-- ===== src/Alerts/Callback/RoundTrip.antt =====
-- A press of a button is understood as what the button says.
use Prim.Native.Char.{Char, code, char}
use Prim.Native.String
use Prim.Native.String.append
use x_ui_aggr.Prelude.{
  ℕ, ◌≡◌, refl, sym, ap, ◌∙◌, String, Bool, true, false, ◌||◌, Option, none, some, List, [], ◌∷◌,
  ◌++◌, ◌is◌, ◌==◌, if◌then◌else◌, Bool-cases, inl, inr, str_eq_iff, str_eq_refl, arith,
}
use x_ui_aggr.Prelude.Int.{ℤ, pos}
use x_ui_aggr.Prelude.Strings.{is_space, trim_space, has_prefix, contains_char, split, text_length}
use x_ui_aggr.Prelude.Strings.Trim.{trim_space-append, trim_space_idem, spaceless}
use x_ui_aggr.Prelude.Strings.Append.{
  append_assoc, has_prefix-append, trim_prefix-append, split-alone, split-append,
}
use x_ui_aggr.Alerts.Callback.{
  Callback, callback, parse_callback_data, parse_sent, parse_parts, InlineButton, callback_row,
  layout, build_keyboard,
}
use x_ui_aggr.Alerts.Types.{Alert}

not_empty : (c : Char) (p s : String) → (String.◌++◌ (String.◌∷◌ c p) s is "") ≡ false
unfolding text_length
not_empty c p s = elim (Bool-cases (String.◌++◌ (String.◌∷◌ c p) s is "")) [
  | inr h ↦ h
  | inl h ↦
      let e : text_length (String.◌∷◌ c (String.◌++◌ p s)) ≡ 0 =
        ap text_length (sym (append.cons c p s) ∙ (str_eq_iff _ "").0 h) in
      absurd (omega (arith, e))
]

-- The prefix of another kind of button does not fit a text with another first character.
other_prefix :
    (c d : Char) (p q s : String)
    → (code c == code d) ≡ false
    → has_prefix (String.◌++◌ (String.◌∷◌ c p) s) (String.◌∷◌ d q) ≡ false
unfolding has_prefix
other_prefix c d p q s h = ap (λ x. has_prefix x (String.◌∷◌ d q)) (append.cons c p s) ∙ rw h refl

spaceless_a : spaceless "a:" ≡ true
unfolding spaceless is_space
spaceless_a = refl

spaceless_r : spaceless "r:" ≡ true
unfolding spaceless is_space
spaceless_r = refl

spaceless_mute : spaceless "mute:" ≡ true
unfolding spaceless is_space
spaceless_mute = refl

mute_colonless : contains_char "mute" b':' ≡ false
unfolding contains_char
mute_colonless = refl

colon : (id : String) → String.◌++◌ ":" id ≡ String.◌∷◌ (char 58 tt) id
colon id = append.cons (char 58 tt) "" id ∙ ap (λ x. String.◌∷◌ (char 58 tt) x) (append.nil id)

mute_unlike_m1 : (id : String) → has_prefix (String.◌++◌ "mute:" id) "m1:" ≡ false
unfolding has_prefix
mute_unlike_m1 id =
    ap (λ x. has_prefix x "m1:") (append.cons (char 109 tt) "ute:" id)
    ∙ ap (λ x. has_prefix x "1:") (append.cons (char 117 tt) "te:" id)

mute_parsed :
    (atoi : String → Option ℤ) (id : String)
    → parse_parts atoi ("mute" ∷ id ∷ []) ≡ callback "mute" (trim_space id) (pos 0)
unfolding trim_space ◌is◌
mute_parsed atoi id = refl

-- An identifier as the service prints it: a text without spaces at its ends and without a colon.
pub record IsId (id : String) : Type 0 where
  pub trimmed : trim_space id ≡ id
  pub colonless : contains_char id b':' ≡ false

module _ (atoi : String → Option ℤ) where
  -- What the buttons of a row send back; a button that opens a link sends nothing.
  abbrev presses : List InlineButton → List Callback
  presses [] = []
  presses (b ∷ bs) =
      if b.callback_data is ""
      then presses bs
      else parse_callback_data atoi b.callback_data ∷ presses bs

  abbrev pressed_rows : List (List InlineButton) → List Callback
  pressed_rows [] = []
  pressed_rows (row ∷ rows) = presses row ++ pressed_rows rows

  abbrev pub pressed : Option (List (List InlineButton)) → List Callback
  pressed none = []
  pressed (some rows) = pressed_rows rows

abbrev expected : String → List Callback
expected id =
    callback "ack" id (pos 0) ∷ callback "mute" id (pos 0) ∷ callback "retry" id (pos 0) ∷ []

module _ (atoi : String → Option ℤ) (id : String) (known : IsId id) where
  pub ack_back : parse_callback_data atoi (String.◌++◌ "a:" id) ≡ callback "ack" id (pos 0)
  unfolding parse_callback_data
  ack_back =
      ap (parse_sent atoi) (trim_space-append (char 97 tt) ":" id spaceless_a known.trimmed)
      ∙ rw
          (
            not_empty (char 97 tt) ":" id,
            has_prefix-append "a:" id,
            trim_prefix-append "a:" id,
            known.trimmed,
          )
          refl

  retry_back : parse_callback_data atoi (String.◌++◌ "r:" id) ≡ callback "retry" id (pos 0)
  unfolding parse_callback_data
  retry_back =
      ap (parse_sent atoi) (trim_space-append (char 114 tt) ":" id spaceless_r known.trimmed)
      ∙ rw
          (
            not_empty (char 114 tt) ":" id,
            other_prefix (char 114 tt) (char 97 tt) ":" ":" id refl,
            other_prefix (char 114 tt) (char 109 tt) ":" "1:" id refl,
            has_prefix-append "r:" id,
            trim_prefix-append "r:" id,
            known.trimmed,
          )
          refl

  mute_parts : split (String.◌++◌ "mute:" id) b':' ≡ "mute" ∷ id ∷ []
  mute_parts =
      ap (λ x. split x b':') (append_assoc "mute" ":" id ∙ ap (String.◌++◌ "mute") (colon id))
      ∙ split-append "mute" (char 58 tt) id b':' mute_colonless refl
      ∙ ap (λ x. "mute" ∷ x) (split-alone id b':' known.colonless)

  mute_back : parse_callback_data atoi (String.◌++◌ "mute:" id) ≡ callback "mute" id (pos 0)
  unfolding parse_callback_data
  mute_back =
      ap (parse_sent atoi) (trim_space-append (char 109 tt) "ute:" id spaceless_mute known.trimmed)
      ∙ rw
          (
            not_empty (char 109 tt) "ute:" id,
            other_prefix (char 109 tt) (char 97 tt) "ute:" ":" id refl,
            mute_unlike_m1 id,
            other_prefix (char 109 tt) (char 114 tt) "ute:" ":" id refl,
            other_prefix (char 109 tt) (char 111 tt) "ute:" ":" id refl,
            mute_parts,
          )
          (mute_parsed atoi id ∙ ap (λ x. callback "mute" x (pos 0)) known.trimmed)

  -- A row that is there, before nothing.
  row_back : (id is "") ≡ false → presses atoi (callback_row id) ++ [] ≡ expected id
  row_back h =
      rw
        (
          h,
          not_empty (char 97 tt) ":" id,
          not_empty (char 109 tt) "ute:" id,
          not_empty (char 114 tt) ":" id,
          ack_back,
          mute_back,
          retry_back,
        )
        refl

  keyboard_back :
      (plain : Bool) (url : String)
      → (id is "") ≡ false
      → pressed atoi (
          layout plain
            (callback_row id)
            (record { text = "🔗 Open node"; callback_data = ""; url = url }))
        ≡ expected id
  keyboard_back true url h = let row = row_back h in rw h (rw h at row)
  keyboard_back false url h = let row = row_back h in rw (h, str_eq_refl "") (rw h at row)

-- Pressing the buttons below a message gives back, in their order, the actions ack, mute and retry for
-- the identifier of its alert, whether or not there is a link to the node. The identifier is not
-- empty and has no colon.
pub parse_callback_data-build_keyboard :
    (atoi : String → Option ℤ) (show : ℕ → String) (alert : Alert) (public_base_url : String)
    → (trim_space alert.alert_id is "") ≡ false
    → contains_char (trim_space alert.alert_id) b':' ≡ false
    → pressed atoi (build_keyboard show alert public_base_url)
      ≡ callback "ack" (trim_space alert.alert_id) (pos 0)
        ∷ callback "mute" (trim_space alert.alert_id) (pos 0)
        ∷ callback "retry" (trim_space alert.alert_id) (pos 0)
        ∷ []
unfolding build_keyboard
parse_callback_data-build_keyboard atoi show alert public_base_url h colonless =
    keyboard_back atoi (trim_space alert.alert_id)
      (record { trimmed = trim_space_idem alert.alert_id; colonless = colonless })
      (trim_space public_base_url is "" || alert.node_id == 0) _ h
