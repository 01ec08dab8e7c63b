-- ===== src/Alerts/Handle/Silence.antt =====
-- An acknowledged alert is silent.
use Prim.Native.String
use x_ui_aggr.Prelude.{
  subst, if◌then◌else◌, Map, sym, [], ◌∷◌, ◌==◌, ap, ◌∙◌, ℕ, ◌+◌, ◌*◌, ◌<◌, ◌≡◌, refl, String, true,
  false, Option, none, some, lookup, ltb, ◌is◌, Bool-cases, inl, inr, arith, if_true,
}
use x_ui_aggr.Prelude.Int.{ℤ, pos}
use x_ui_aggr.Prelude.Strings.{trim_space}
use x_ui_aggr.Alerts.Types.{AlertState, Incident, World, Env, UuidCodec}
use x_ui_aggr.Alerts.Policy.{minute}
use x_ui_aggr.Alerts.Policy.Bounds.{normalize_policy_minutes_bounds}
use x_ui_aggr.Alerts.Store.Rows.{lookup-update_row_self}
use x_ui_aggr.Alerts.Mute.{is_muted, is_before, ask_row}
use x_ui_aggr.Alerts.Callback.RoundTrip.{IsId, ack_back}
use x_ui_aggr.Alerts.Store.{update_row}
use x_ui_aggr.Alerts.Handle.{
  acked_incidents, ack_incident, Reads, load_state_by_alert_id, minutes_of, settings_of,
  org_id_for_state, policy_for_state, acked, ack_by_alert_id, acknowledged, ack_reply,
  handle_callback,
}

lt→ltb : (a b : ℕ) → a < b → ltb a b ≡ true
lt→ltb a b h = ground arith

-- The time of an acknowledgement is at least a minute.
minutes_of-positive : (settings : Option (ℤ × ℤ)) → 0 < (minutes_of settings).0
minutes_of-positive none = (normalize_policy_minutes_bounds (pos 0) (pos 0)).0
minutes_of-positive (some (ack, mute)) = (normalize_policy_minutes_bounds ack mute).0

policy_for_state-positive : (r : Reads) (s : AlertState) → 0 < (policy_for_state r (some s)).0
unfolding policy_for_state
policy_for_state-positive r s = minutes_of-positive (settings_of r (org_id_for_state r s))

-- A row with a mute that lasts answers for the memory.
is_muted-row :
    (e : Env) (fingerprint : String) (row : AlertState) (until : ℕ) (w : World)
    → (trim_space fingerprint is "") ≡ false
    → e.mute_read_ok ≡ true
    → lookup fingerprint w.states ≡ some row
    → row.muted_until ≡ some until
    → e.mute_now < until
    → (is_muted e fingerprint w).0 ≡ true
unfolding is_muted ask_row
is_muted-row e fingerprint row until w named reads found muted early =
    elim (Bool-cases (is_before e.mute_now (lookup fingerprint w.muted_until))) [
      | inl known ↦ rw (named, known) refl
      | inr asked ↦ rw (named, asked, reads, found, muted, lt→ltb e.mute_now until early) refl
    ]

handle_ack :
    (atoi : String → Option ℤ) (u : UuidCodec) (e : Env) (r : Reads) (id : String) (w : World)
    → IsId id
    → handle_callback atoi u e r (String.◌++◌ "a:" id) w ≡ ack_reply w (ack_by_alert_id u e r id w)
unfolding handle_callback ◌is◌
handle_ack atoi u e r id w known = rw (ack_back atoi id known) refl

-- What an acknowledgement makes of the row of an incident: if it is the one that is acknowledged, it
-- has the status, the time and the person; any other stays as it was.
abbrev pub after_ack : Env → Option ℕ → Option Incident → Option Incident
after_ack e id none = none
after_ack e none (some row) = some row
after_ack e (some id) (some row) =
    if row.id == id
    then some (record row {
      status = "acked";
      acknowledged_at = some e.now;
      acknowledged_by = some "telegram";
    })
    else some row

after_ack-none : (e : Env) (o : Option Incident) → after_ack e none o ≡ o
after_ack-none e none = refl
after_ack-none e (some row) = refl

lookup-ack_incident :
    (e : Env) (id : ℕ) (key : String) (rows : Map Incident)
    → lookup key (ack_incident e id rows) ≡ after_ack e (some id) (lookup key rows)
unfolding lookup ack_incident
lookup-ack_incident e id key [] = refl
lookup-ack_incident e id key ((k, row) ∷ rows) = elim (Bool-cases (k is key)) [
  | inl same ↦ elim (Bool-cases (row.id == id)) [
    | inl hit ↦ rw (hit, same, hit) refl
    | inr miss ↦ rw (miss, same, miss) refl
  ]
  | inr other ↦ elim (Bool-cases (row.id == id)) [
    | inl hit ↦ rw (hit, other) (lookup-ack_incident e id key rows)
    | inr miss ↦ rw (miss, other) (lookup-ack_incident e id key rows)
  ]
]

lookup-acked_incidents :
    (e : Env) (id : Option ℕ) (key : String) (rows : Map Incident)
    → e.incident_write_ok ≡ true
    → lookup key (acked_incidents e id rows) ≡ after_ack e id (lookup key rows)
lookup-acked_incidents e none key rows writes = sym (after_ack-none e (lookup key rows))
lookup-acked_incidents e (some id) key rows writes =
    ap (lookup key) (if_true e.incident_write_ok _ _ writes) ∙ lookup-ack_incident e id key rows

silent :
    (e later : Env) (r : Reads) (s : AlertState) (key : String) (w : World)
    → (trim_space s.fingerprint is "") ≡ false
    → lookup s.fingerprint w.states ≡ some s
    → e.state_write_ok ≡ true
    → e.incident_write_ok ≡ true
    → later.mute_read_ok ≡ true
    → later.mute_now < e.now + minute
    → ((ack_reply w (acked e r (some s) w)).0 ≡ acknowledged)
      × (lookup key (ack_reply w (acked e r (some s) w)).2.incidents
          ≡ after_ack e s.incident_id (lookup key w.incidents))
      × ((is_muted later s.fingerprint (ack_reply w (acked e r (some s) w)).2).0 ≡ true)
silent e later r s key w named found writes stores reads early =
    let m = (policy_for_state r (some s)).0 in
    let until = e.now + m * minute in
    let positive = policy_for_state-positive r s in
    let states =
      update_row s.fingerprint
        (λ (row : AlertState). record row { muted_until = some until; last_seen = e.now })
        w.states in
    let incidents = acked_incidents e s.incident_id w.incidents in
    let after : World = record w { states = states; incidents = incidents } in
    subst
      (λ (x : Option String × World).
        ((ack_reply w x).0 ≡ acknowledged)
        × (lookup key (ack_reply w x).2.incidents
            ≡ after_ack e s.incident_id (lookup key w.incidents))
        × ((is_muted later s.fingerprint (ack_reply w x).2).0 ≡ true))
      (sym (if_true e.state_write_ok (none, after) _ writes))
      (
        refl,
        lookup-acked_incidents e s.incident_id key w.incidents stores,
        is_muted-row later s.fingerprint (record s { muted_until = some until; last_seen = e.now })
            until after named reads
            (lookup-update_row_self s.fingerprint
              (λ (row : AlertState). record row { muted_until = some until; last_seen = e.now })
              w.states found)
            refl (omega (arith, early, positive)),
      )

-- Pressing the button Ack below the message of an alert that is found is answered as acknowledged;
-- the incident that the alert's row names then has the status "acked", the time and "telegram" as the
-- person, and every other incident stays as it was; and for at least a minute the service counts the
-- alert as muted, whatever its policy says. This holds as long as the database takes the writes and
-- answers the read, and the row of the alert is the one of its fingerprint.
pub ack_button_silences :
    (atoi : String → Option ℤ) (u : UuidCodec) (e later : Env) (r : Reads) (id key : String)
    (s : AlertState) (w : World)
    → IsId id
    → load_state_by_alert_id u e w id ≡ some s
    → (trim_space s.fingerprint is "") ≡ false
    → lookup s.fingerprint w.states ≡ some s
    → e.state_write_ok ≡ true
    → e.incident_write_ok ≡ true
    → later.mute_read_ok ≡ true
    → later.mute_now < e.now + minute
    → let (reply, err, after) = handle_callback atoi u e r (String.◌++◌ "a:" id) w in
      (reply ≡ acknowledged)
      × (lookup key after.incidents ≡ after_ack e s.incident_id (lookup key w.incidents))
      × ((is_muted later s.fingerprint after).0 ≡ true)
unfolding ack_by_alert_id
ack_button_silences atoi u e later r id key s w known loads named found writes stores reads early =
    rw (handle_ack atoi u e r id w known, loads)
      (silent e later r s key w named found writes stores reads early)
