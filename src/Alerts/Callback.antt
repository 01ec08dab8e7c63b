-- ===== src/Alerts/Callback.antt =====
-- ParseCallbackData, parseMuteMinutes and buildKeyboard of backend/internal/services/alerts/renderer.go:
-- the buttons of a message, and what a press of one sends back.
pub mod RoundTrip
use Prim.Native.Char.{code}
use Prim.Native.String
use x_ui_aggr.Prelude.{
  ℕ, ◌+◌, ◌*◌, String, Bool, true, false, ◌&&◌, ◌||◌, Option, none, some, List, [], ◌∷◌, ◌++◌, ◌is◌,
  ◌==◌, leb, if◌then◌else◌, is_empty,
}
use x_ui_aggr.Prelude.Int.{ℤ, pos, negsuc}
use x_ui_aggr.Prelude.Strings.{
  trim_space, trim_right, has_prefix, trim_prefix, ends_with, contains_char, split,
}
use x_ui_aggr.Alerts.Types.{Alert}

-- The action, the identifier of the alert and the minutes.
pub record Callback : Type 0 where
  pub action : String
  pub alert_id : String
  pub minutes : ℤ

abbrev pub callback : String → String → ℤ → Callback
callback action alert_id minutes = record {
  action = action;
  alert_id = alert_id;
  minutes = minutes;
}

unfoldable pub digits : String → Bool
digits String.[] = true
digits (String.◌∷◌ c s) = leb b'0' (code c) && leb (code c) b'9' && digits s

unfoldable pub is_numeric : String → Bool
unfolding digits
is_numeric raw = if raw is "" then false else digits raw

-- strings.TrimSuffix(val, "h")
unfoldable pub trim_h : String → String
trim_h String.[] = ""
trim_h (String.◌∷◌ c String.[]) = if code c == b'h' then "" else String.◌∷◌ c ""
trim_h (String.◌∷◌ c (String.◌∷◌ d s)) = String.◌∷◌ c (trim_h (String.◌∷◌ d s))

abbrev times_60 : ℤ → ℤ
times_60 (pos n) = pos (n * 60)
times_60 (negsuc n) = negsuc (n * 60 + 59)

-- strconv.Atoi: the number that a text names, or none.
module _ (atoi : String → Option ℤ) where
  unfoldable pub parse_mute_minutes : String → ℤ
  parse_mute_minutes raw =
      if trim_space raw is "" then pos 0 else elim (atoi (trim_h (trim_space raw))) [
        | none ↦ pos 0
        | some n ↦ if ends_with raw b'h' then times_60 n else n
      ]

  abbrev pub parse_mute : List String → Callback
  parse_mute [] = callback "mute" "" (pos 0)
  parse_mute (second ∷ []) = callback "mute" (trim_space second) (pos 0)
  parse_mute (second ∷ third ∷ rest) =
      if contains_char second b'h' || is_numeric second
      then callback "mute" (trim_space third) (parse_mute_minutes second)
      else callback "mute" (trim_space second) (parse_mute_minutes third)

  abbrev pub second_of : List String → String
  second_of [] = ""
  second_of (second ∷ rest) = trim_space second

  -- The switch over the first part.
  abbrev pub parse_parts : List String → Callback
  parse_parts [] = callback "" "" (pos 0)
  parse_parts (first ∷ rest) =
      let action = trim_space first in
      if action is "ack" || action is "open" || action is "retry"
      then callback action (second_of rest) (pos 0)
      else if action is "mute"
      then parse_mute rest
      else callback "" "" (pos 0)

  abbrev pub parse_sent : String → Callback
  parse_sent sent =
      if sent is ""
      then callback "" "" (pos 0)
      else if has_prefix sent "a:"
      then callback "ack" (trim_space (trim_prefix sent "a:")) (pos 0)
      else if has_prefix sent "m1:"
      then callback "mute" (trim_space (trim_prefix sent "m1:")) (pos 60)
      else if has_prefix sent "r:"
      then callback "retry" (trim_space (trim_prefix sent "r:")) (pos 0)
      else if has_prefix sent "o:"
      then callback "open" (trim_space (trim_prefix sent "o:")) (pos 0)
      else parse_parts (split sent b':')

  unfoldable pub parse_callback_data : String → Callback
  parse_callback_data raw = parse_sent (trim_space raw)

-- A button sends data back or opens a link.
pub record InlineButton : Type 0 where
  pub text : String
  pub callback_data : String
  pub url : String

abbrev pub callback_row : String → List InlineButton
callback_row alert_id =
    if alert_id is ""
    then []
    else record { text = "✅ Ack"; callback_data = String.◌++◌ "a:" alert_id; url = "" }
      ∷ record { text = "🔇 Mute"; callback_data = String.◌++◌ "mute:" alert_id; url = "" }
      ∷ record { text = "🔁 Retry"; callback_data = String.◌++◌ "r:" alert_id; url = "" }
      ∷ []

-- The rows without and with the link.
abbrev pub layout : Bool → List InlineButton → InlineButton → Option (List (List InlineButton))
layout true row link = if is_empty row then none else some (row ∷ [])
layout false row link = some ((link ∷ []) ∷ (if is_empty row then [] else row ∷ []))

-- What uuid.String prints is a parameter.
unfoldable pub build_keyboard : (ℕ → String) → Alert → String → Option (List (List InlineButton))
build_keyboard show alert public_base_url =
    let row = callback_row (trim_space alert.alert_id) in
    let url =
      String.◌++◌ (trim_right public_base_url b'/')
        (String.◌++◌ "/nodes?node=" (show alert.node_id)) in
    let link : InlineButton = record { text = "🔗 Open node"; callback_data = ""; url = url } in
    layout (trim_space public_base_url is "" || alert.node_id == 0) row link
