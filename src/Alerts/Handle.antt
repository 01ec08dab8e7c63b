-- ===== src/Alerts/Handle.antt =====
-- HandleCallback, MuteByAlertID, AckByAlertID, policyForState, orgIDForState and openURLForAlert of
-- backend/internal/services/alerts/service.go: what a press of a button does.
pub mod Silence
use Prim.Native.String
use x_ui_aggr.Prelude.{
  ℕ, ◌+◌, ◌*◌, String, Bool, true, false, not, ◌||◌, Option, none, some, List, [], ◌∷◌, Map, ◌==◌,
  ◌is◌, if◌then◌else◌,
}
use x_ui_aggr.Prelude.Int.{ℤ, pos, pos_part, leb_ℤ}
use x_ui_aggr.Prelude.Strings.{trim_space, trim_right}
use x_ui_aggr.Alerts.Types.{AlertState, Incident, World, Env, UuidCodec}
use x_ui_aggr.Alerts.Policy.{normalize_policy_minutes, minute}
use x_ui_aggr.Alerts.Store.{update_row}
use x_ui_aggr.Alerts.Mute.{set_mute}
use x_ui_aggr.Alerts.Callback.{Callback, parse_callback_data}

unfoldable pub find_alert : ℕ → Map AlertState → Option AlertState
find_alert id [] = none
find_alert id ((key, row) ∷ rows) = elim row.alert_id [
  | none ↦ find_alert id rows
  | some other ↦ if other == id then some row else find_alert id rows
]

abbrev pub find_parsed : Bool → Option ℕ → Map AlertState → Option AlertState
find_parsed load_ok none rows = none
find_parsed load_ok (some id) rows = if load_ok then find_alert id rows else none

unfoldable pub load_state_by_alert_id : UuidCodec → Env → World → String → Option AlertState
load_state_by_alert_id u e w alert_id =
    if trim_space alert_id is "" then none else find_parsed e.load_ok (u.parse alert_id) w.states

-- The answers of the reads of other tables: the column org_id of an incident and a node, node_id of a
-- service and a bot, and the two mute times of an organisation's settings; none where the read fails
-- or the column is empty.
pub record Reads : Type 0 where
  pub incident_org : ℕ → Option ℕ
  pub node_org : ℕ → Option ℕ
  pub service_node : ℕ → Option ℕ
  pub bot_node : ℕ → Option ℕ
  pub settings : ℕ → Option (ℤ × ℤ)

-- The nil UUID counts as no identifier.
abbrev pub followed : Option ℕ → (ℕ → Option ℕ) → Option ℕ
followed none read = none
followed (some id) read = if id == 0 then none else read id

abbrev pub or_next : Option ℕ → Option ℕ → Option ℕ
or_next none next = next
or_next (some id) next = some id

-- A read by way of a row that names its node; a nil node has no row.
abbrev pub by_node : Reads → Option ℕ → Option ℕ
by_node r none = none
by_node r (some node_id) = r.node_org node_id

unfoldable pub org_id_for_state : Reads → AlertState → Option ℕ
org_id_for_state r state = or_next (followed state.incident_id r.incident_org) (
    or_next (followed state.node_id r.node_org) (
      or_next (followed state.service_id (λ id. by_node r (r.service_node id)))
        (followed state.bot_id (λ id. by_node r (r.bot_node id)))))

abbrev pub minutes_of : Option (ℤ × ℤ) → ℕ × ℕ
minutes_of none = normalize_policy_minutes (pos 0) (pos 0)
minutes_of (some (ack, mute)) = normalize_policy_minutes ack mute

abbrev pub settings_of : Reads → Option ℕ → Option (ℤ × ℤ)
settings_of r none = none
settings_of r (some org_id) = if org_id == 0 then none else r.settings org_id

-- The minutes of an acknowledgement and of a mute.
unfoldable pub policy_for_state : Reads → Option AlertState → ℕ × ℕ
policy_for_state r none = minutes_of none
policy_for_state r (some state) = minutes_of (settings_of r (org_id_for_state r state))

unfoldable pub mute_by_alert_id : UuidCodec → Env → String → ℕ → World → Option String × World
mute_by_alert_id u e alert_id duration w =
    if trim_space alert_id is ""
    then (some "alert_id required", w)
    else elim (load_state_by_alert_id u e w alert_id) [
      | none ↦ (some "alert not found", w)
      | some state ↦ (none, set_mute e state.fingerprint duration w)
    ]

unfoldable pub ack_incident : Env → ℕ → Map Incident → Map Incident
ack_incident e id [] = []
ack_incident e id ((key, row) ∷ rows) =
    let rest = ack_incident e id rows in
    if row.id == id
    then (
      key,
      record row {
        status = "acked";
        acknowledged_at = some e.now;
        acknowledged_by = some "telegram";
      },
    )
      ∷ rest
    else (key, row) ∷ rest

-- The incident of the state, whose update's error is ignored.
abbrev pub acked_incidents : Env → Option ℕ → Map Incident → Map Incident
acked_incidents e none rows = rows
acked_incidents e (some id) rows = if e.incident_write_ok then ack_incident e id rows else rows

-- An acknowledged alert is muted in the table only.
abbrev pub acked : Env → Reads → Option AlertState → World → Option String × World
acked e r none w = (some "alert not found", w)
acked e r (some state) w =
    let until = e.now + (policy_for_state r (some state)).0 * minute in
    if e.state_write_ok
    then (
      none,
      record w {
        states =
            update_row state.fingerprint
              (λ row. record row { muted_until = some until; last_seen = e.now }) w.states;
        incidents = acked_incidents e state.incident_id w.incidents;
      },
    )
    else (some "update failed", w)

unfoldable pub ack_by_alert_id : UuidCodec → Env → Reads → String → World → Option String × World
ack_by_alert_id u e r alert_id w = acked e r (load_state_by_alert_id u e w alert_id) w

-- What the caller is told, the error or none, and the tables afterwards. The texts that name the
-- minutes or the link are left out.
pub data Reply : Type 0 where
  muted_for : ℤ → Reply
  mute_failed acknowledged ack_failed opened retry_queued plain_ok : Reply

abbrev pub chosen_minutes : Reads → Option AlertState → ℤ → ℤ
chosen_minutes r state minutes =
    if leb_ℤ minutes (pos 0) then pos (policy_for_state r state).1 else minutes

-- A mute of an alert that is not found mutes its identifier as if it were a fingerprint.
abbrev pub mute_reply :
    Env → String → ℤ → World → Option String × World → Reply × Option String × World
mute_reply e alert_id minutes w (none, after) = (muted_for minutes, none, after)
mute_reply e alert_id minutes w (some msg, after) =
    if trim_space alert_id is ""
    then (mute_failed, some msg, w)
    else (muted_for minutes, none, set_mute e alert_id (pos_part minutes * minute) w)

abbrev pub ack_reply : World → Option String × World → Reply × Option String × World
ack_reply w (none, after) = (acknowledged, none, after)
ack_reply w (some msg, after) = (ack_failed, some msg, w)

unfoldable pub handle_callback :
    (String → Option ℤ) → UuidCodec → Env → Reads → String → World → Reply × Option String × World
handle_callback atoi u e r sent w =
    let c = parse_callback_data atoi sent in
    if c.action is "mute"
    then (let minutes = chosen_minutes r (load_state_by_alert_id u e w c.alert_id) c.minutes in
        mute_reply e c.alert_id minutes w
          (mute_by_alert_id u e c.alert_id (pos_part minutes * minute) w))
    else if c.action is "ack"
    then ack_reply w (ack_by_alert_id u e r c.alert_id w)
    else if c.action is "open"
    then (opened, none, w)
    else if c.action is "retry"
    then (retry_queued, none, w)
    else (plain_ok, none, w)
