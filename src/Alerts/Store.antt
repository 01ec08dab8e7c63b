-- ===== src/Alerts/Store.antt =====
-- loadState, ensureAlertID, updateState and syncIncident (service.go): the rows of the tables
-- alert_states and incidents that belong to one fingerprint.
pub mod Rows
use x_ui_aggr.Prelude.{
  ℕ, String, Bool, true, false, not, ◌&&◌, ◌||◌, Option, none, some, Map, lookup, insert, leb, ltb,
  ◌==◌, ◌is◌, if◌then◌else◌,
}
use x_ui_aggr.Prelude.Strings.{trim_space}
use x_ui_aggr.Alerts.Types.{
  Alert, AlertState, Incident, World, Env, UuidCodec, type_text, severity_text, nullable_uuid,
  nullable_string,
}
use x_ui_aggr.Alerts.Fingerprint.{normal}
use x_ui_aggr.Alerts.Render.{render_title}
use x_ui_aggr.Alerts.Messages.{message_ids_to_json}

unfoldable pub load_state : Env → World → String → Option AlertState
load_state e w fingerprint = if e.load_ok then lookup fingerprint w.states else none

-- An UPDATE of the row with this key, if there is one.
unfoldable pub update_row {ℓ} : {V : Type ℓ} → String → (V → V) → Map V → Map V
update_row key f rows = elim (lookup key rows) [ none ↦ rows | some row ↦ insert key (f row) rows ]

-- A row without an alert id is given one, in memory and in the table.
with_alert_id : UuidCodec → Env → AlertState → Option ℕ → World → Option AlertState × String × World
with_alert_id u e state (some id) w = (some state, u.show id, w)
with_alert_id u e state none w = (
  some (record state { alert_id = some e.new_id }),
  u.show e.new_id,
  if e.id_ok
      then record w {
        states =
            update_row state.fingerprint (λ row. record row { alert_id = some e.new_id }) w.states;
      }
      else w,
)

-- The state that the caller holds afterwards, the id as text, and the tables.
unfoldable pub ensure_alert_id :
    UuidCodec → Env → Option AlertState → World → Option AlertState × String × World
unfolding with_alert_id
ensure_alert_id u e none w = (none, u.show e.new_id, w)
ensure_alert_id u e (some state) w = with_alert_id u e state state.alert_id w

abbrev pub is_some {ℓ} : {A : Type ℓ} → Option A → Bool
is_some none = false
is_some (some a) = true

-- `*id` where the pointer is set and is not uuid.Nil, and else the column's old value.
abbrev pub set_uuid : Option ℕ → Option ℕ → Option ℕ
set_uuid none old = old
set_uuid (some id) old = if id == 0 then old else some id

abbrev pub prev_status_of : Option String → String
prev_status_of none = ""
prev_status_of (some s) = normal s

-- The alert id that the text names, where it is not blank and parses.
unfoldable pub parse_id : UuidCodec → String → Option ℕ
parse_id u text = if trim_space text is "" then none else u.parse text

-- The UPDATE of updateState. `state` is what the caller loaded, `row` what the table holds.
unfoldable pub updated_row :
    UuidCodec
    → Env
    → Alert
    → AlertState
    → String
    → Bool
    → Map ℕ
    → ℕ
    → Option ℕ
    → AlertState
    → AlertState
unfolding type_text nullable_uuid nullable_string parse_id message_ids_to_json
updated_row u e a state status notified ids ok_streak incident_id row = record row {
  alert_type = type_text a.kind;
  node_id = nullable_uuid a.node_id;
  service_id = nullable_uuid a.service_id;
  bot_id = nullable_uuid a.bot_id;
  check_type = nullable_string a.check_type;
  last_status = some status;
  last_seen = e.now;
  occurrences = a.occurrences;
  ok_streak = ok_streak;
  incident_id = set_uuid incident_id row.incident_id;
  last_message_ids = if notified then message_ids_to_json ids else row.last_message_ids;
  alert_id =
      if is_some state.alert_id
      then row.alert_id
      else elim (parse_id u a.alert_id) [ none ↦ row.alert_id | some id ↦ some id ];
  first_seen =
      if status is "fail"
        && (not (prev_status_of state.last_status is "fail") || ltb 0 state.ok_streak)
      then e.now
      else row.first_seen;
}

unfoldable pub new_row : UuidCodec → Env → Alert → String → Map ℕ → ℕ → Option ℕ → AlertState
unfolding type_text nullable_uuid nullable_string parse_id message_ids_to_json
new_row u e a status ids ok_streak incident_id = record {
  alert_id = some (elim (parse_id u a.alert_id) [
    | none ↦ e.row_id
    | some id ↦ if id == 0 then e.row_id else id
  ]);
  fingerprint = a.fingerprint;
  incident_id = incident_id;
  alert_type = type_text a.kind;
  node_id = nullable_uuid a.node_id;
  service_id = nullable_uuid a.service_id;
  bot_id = nullable_uuid a.bot_id;
  check_type = nullable_string a.check_type;
  last_status = some status;
  first_seen = e.now;
  last_seen = e.now;
  occurrences = a.occurrences;
  ok_streak = ok_streak;
  last_message_ids = message_ids_to_json ids;
  muted_until = none;
}

-- A write that fails, and an INSERT of a key that is there, change nothing.
unfoldable pub update_state :
    UuidCodec
    → Env
    → Alert
    → Option AlertState
    → String
    → Bool
    → Map ℕ
    → ℕ
    → Option ℕ
    → World
    → World
unfolding updated_row new_row
update_state u e a none status notified ids ok_streak incident_id w =
    if e.state_write_ok
    then elim (lookup a.fingerprint w.states) [
      | some row ↦ w
      | none ↦ record w {
        states = insert a.fingerprint (new_row u e a status ids ok_streak incident_id) w.states;
      }
    ]
    else w
update_state u e a (some state) status notified ids ok_streak incident_id w =
    if e.state_write_ok
    then record w {
      states =
          update_row a.fingerprint
            (updated_row u e a state status notified ids ok_streak incident_id) w.states;
    }
    else w

abbrev pub incident_uuid_from_alert : UuidCodec → Alert → Option ℕ
incident_uuid_from_alert u a =
    if trim_space a.incident_id is "" then none else elim (u.parse (trim_space a.incident_id)) [
      | none ↦ none
      | some id ↦ if id == 0 then none else some id
    ]

abbrev pub max_int : ℕ → ℕ → ℕ
max_int a b = if leb b a then a else b

new_incident : Env → Alert → String → Incident
unfolding type_text severity_text nullable_uuid
new_incident e a fp =
    let desc = trim_space a.error in
    let described : Option String = if desc is "" then none else some desc in
    record {
      id = e.new_incident_id;
      org_id = a.org_id;
      fingerprint = fp;
      alert_type = type_text a.kind;
      severity = severity_text a.severity;
      status = "open";
      node_id = nullable_uuid a.node_id;
      service_id = nullable_uuid a.service_id;
      bot_id = nullable_uuid a.bot_id;
      check_id = nullable_uuid a.check_id;
      title = trim_space (render_title a);
      description = described;
      first_seen = e.now;
      last_seen = e.now;
      acknowledged_at = none;
      acknowledged_by = none;
      recovered_at = none;
      occurrences = max_int a.occurrences 1;
      last_error = described;
    }

-- The columns that every update sets.
refreshed_incident : Env → Alert → String → Incident → Incident
unfolding type_text severity_text nullable_uuid
refreshed_incident e a fp incident = record incident {
  last_seen = e.now;
  org_id = a.org_id;
  alert_type = type_text a.kind;
  severity = severity_text a.severity;
  node_id = nullable_uuid a.node_id;
  service_id = nullable_uuid a.service_id;
  bot_id = nullable_uuid a.bot_id;
  check_id = nullable_uuid a.check_id;
  title = trim_space (render_title a);
  description = some (trim_space a.error);
  occurrences = max_int a.occurrences incident.occurrences;
  last_error = some (trim_space a.error);
  fingerprint = fp;
}

-- The columns that depend on the status, set on `r`, the refreshed row of `incident`.
updated_incident : Env → Alert → String → String → String → Incident → Incident
unfolding refreshed_incident
updated_incident e a fp status prev_status incident =
    let r = refreshed_incident e a fp incident in
    if status is "fail"
    then (if not (prev_status is "fail") || incident.status is "recovered"
        then record r {
          status = "open";
          recovered_at = none;
          first_seen = e.now;
          acknowledged_at = none;
          acknowledged_by = none;
        }
        else record r { status = "open"; recovered_at = none })
    else if incident.status is "recovered"
    then r
    else record r { status = "recovered"; recovered_at = some e.now }

sync_row : Env → Alert → String → String → String → Option Incident → World → Option ℕ × World
unfolding new_incident updated_incident
sync_row e a fp status prev_status none w =
    if status is "fail"
    then (if e.incident_write_ok
        then (
          some e.new_incident_id,
          record w { incidents = insert fp (new_incident e a fp) w.incidents },
        )
        else (none, w))
    else (none, w)
sync_row e a fp status prev_status (some incident) w =
    if e.incident_write_ok
    then (
      some incident.id,
      record w {
        incidents = insert fp (updated_incident e a fp status prev_status incident) w.incidents;
      },
    )
    else (none, w)

unfoldable pub sync_incident : Env → Alert → String → String → World → Option ℕ × World
unfolding sync_row
sync_incident e a status prev_status w =
    let fp = trim_space a.fingerprint in
    if fp is ""
    then (none, w)
    else if e.incident_read_ok
    then sync_row e a fp status prev_status (lookup fp w.incidents) w
    else (none, w)
