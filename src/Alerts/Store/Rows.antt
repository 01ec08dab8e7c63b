-- ===== src/Alerts/Store/Rows.antt =====
-- What the writes of the engine leave in the row of a fingerprint and in its incident.
use x_ui_aggr.Prelude.{
  ℕ, String, ◌≡◌, ◌≢◌, inl, inr, refl, Bool, true, false, Option, none, some, Map, arith, lookup,
  insert, lookup-insert, ◌is◌, str_eq_iff, str_eq_refl, Option-cases, Bool-cases, if◌then◌else◌,
}
use x_ui_aggr.Prelude.Strings.{trim_space}
use x_ui_aggr.Alerts.Types.{Alert, AlertState, Incident, World, Env, UuidCodec}
use x_ui_aggr.Alerts.Store.{
  update_row, load_state, ensure_alert_id, with_alert_id, update_state, updated_row, new_row,
  sync_incident, sync_row, new_incident, updated_incident,
}

-- Every access to the database succeeds.
pub record IsReliable (e : Env) : Type 0 where
  pub load : e.load_ok ≡ true
  pub incident_read : e.incident_read_ok ≡ true
  pub incident_write : e.incident_write_ok ≡ true
  pub state_write : e.state_write_ok ≡ true

pub lookup-insert_self {ℓ} :
    {V : Type ℓ} (k : String) (v : V) (m : Map V) → lookup k (insert k v m) ≡ some v
lookup-insert_self k v m = rw (lookup-insert k k v m, str_eq_refl k)

pub lookup-update_row_self {ℓ} :
    {V : Type ℓ} (k : String) (f : V → V) (m : Map V) {v : V}
    → lookup k m ≡ some v
    → lookup k (update_row k f m) ≡ some (f v)
unfolding update_row
lookup-update_row_self k f m {v} h = rw (h, update_row) (lookup-insert_self k (f v) m)

-- The columns of a row that the engine branches on.
pub record SameColumns (r t : AlertState) : Type 0 where
  pub last_status : r.last_status ≡ t.last_status
  pub occurrences : r.occurrences ≡ t.occurrences
  pub ok_streak : r.ok_streak ≡ t.ok_streak
  pub first_seen : r.first_seen ≡ t.first_seen
  pub last_message_ids : r.last_message_ids ≡ t.last_message_ids

abbrev pub SameRow : Option AlertState → Option AlertState → Type 0
SameRow none none = Unit
SameRow none (some t) = ⊥
SameRow (some r) none = ⊥
SameRow (some r) (some t) = SameColumns r t

SameRow-refl : (o : Option AlertState) → SameRow o o
SameRow-refl none = tt
SameRow-refl (some r) = record {
  last_status = refl;
  occurrences = refl;
  ok_streak = refl;
  first_seen = refl;
  last_message_ids = refl;
}

SameRow-update_row :
    (k j : String) (id : ℕ) (rows : Map AlertState)
    → SameRow
        (lookup j (update_row k (λ row. record row { alert_id = some id }) rows))
        (lookup j rows)
unfolding update_row
SameRow-update_row k j id rows = elim (Option-cases (lookup k rows)) [
  | inl e ↦ rw (e, update_row) (SameRow-refl _)
  | inr (r, e) ↦ rw (e, update_row) (found r e)
]
  where
    found :
        (r : AlertState)
        → lookup k rows ≡ some r
        → SameRow (lookup j (insert k (record r { alert_id = some id }) rows)) (lookup j rows)
    found r e = elim (Bool-cases (k is j)) [
      | inl hit ↦
          rw (lookup-insert, hit, ← (str_eq_iff k j).0 hit, e)
            (record {
              last_status = refl;
              occurrences = refl;
              ok_streak = refl;
              first_seen = refl;
              last_message_ids = refl;
            })
      | inr miss ↦ rw (lookup-insert, miss) (SameRow-refl _)
    ]

with_alert_id-SameRow :
    (u : UuidCodec) (e : Env) (fp : String) (r : AlertState) (id : Option ℕ) (w : World)
    → lookup fp w.states ≡ some r
    → SameRow (with_alert_id u e r id w).0 (some r)
      × SameRow (lookup fp (with_alert_id u e r id w).2.states) (some r)
unfolding with_alert_id
with_alert_id-SameRow u e fp r (some id) w h = (SameRow-refl (some r), rw h (SameRow-refl (some r)))
with_alert_id-SameRow u e fp r none w h = (
  record {
    last_status = refl;
    occurrences = refl;
    ok_streak = refl;
    first_seen = refl;
    last_message_ids = refl;
  },
  elim (Bool-cases e.id_ok) [
    | inl b ↦ rw b (rw h at (SameRow-update_row r.fingerprint fp e.new_id w.states))
    | inr b ↦ rw (b, h) (SameRow-refl (some r))
  ],
)

-- Drawing an alert id changes none of those columns, in the table or in the row that was loaded.
pub ensure_alert_id-SameRow :
    (u : UuidCodec) (e : Env) (fp : String) (w : World)
    → e.load_ok ≡ true
    → SameRow (ensure_alert_id u e (load_state e w fp) w).0 (lookup fp w.states)
      × SameRow
          (lookup fp (ensure_alert_id u e (load_state e w fp) w).2.states)
          (lookup fp w.states)
unfolding ensure_alert_id load_state
ensure_alert_id-SameRow u e fp w ok = elim (Option-cases (lookup fp w.states)) [
  | inl h ↦ rw (ok, h) (tt, rw h tt)
  | inr (r, h) ↦ rw (ok, h) (with_alert_id-SameRow u e fp r r.alert_id w h)
]

-- What an update leaves where the caller had loaded the row, and where it had found none.
module _ (u : UuidCodec) (e : Env) (a : Alert) where
  pub update_state-found :
      (state : AlertState) (status : String) (notified : Bool) (ids : Map ℕ) (streak : ℕ)
      (id : Option ℕ) (w : World) (row : AlertState)
      → e.state_write_ok ≡ true
      → lookup a.fingerprint w.states ≡ some row
      → lookup a.fingerprint
          (update_state u e a (some state) status notified ids streak id w).states
        ≡ some (updated_row u e a state status notified ids streak id row)
  unfolding update_state
  update_state-found state status notified ids streak id w row ok h =
      rw ok (lookup-update_row_self a.fingerprint _ w.states h)

  pub update_state-missing :
      (status : String) (notified : Bool) (ids : Map ℕ) (streak : ℕ) (id : Option ℕ) (w : World)
      → e.state_write_ok ≡ true
      → lookup a.fingerprint w.states ≡ none
      → lookup a.fingerprint (update_state u e a none status notified ids streak id w).states
        ≡ some (new_row u e a status ids streak id)
  unfolding update_state
  update_state-missing status notified ids streak id w ok h =
      rw (ok, h) (lookup-insert_self a.fingerprint _ w.states)

  pub incidents-update_state :
      (state : Option AlertState) (status : String) (notified : Bool) (ids : Map ℕ) (streak : ℕ)
      (id : Option ℕ) (w : World)
      → (update_state u e a state status notified ids streak id w).incidents ≡ w.incidents
  unfolding update_state
  incidents-update_state none status notified ids streak id w = ground arith
  incidents-update_state (some state) status notified ids streak id w = ground arith

  pub states-sync_incident :
      (status prev : String) (w : World) → (sync_incident e a status prev w).1.states ≡ w.states
  unfolding sync_incident
  states-sync_incident status prev w = ground arith

-- The incident of a key after a sync: open for a failure, and otherwise absent or recovered.
abbrev pub InStep : String → Option Incident → Type 0
InStep status none = (status is "fail") ≡ false
InStep status (some i) = i.status ≡ (if status is "fail" then "open" else "recovered")

pub sync_incident-InStep :
    (e : Env) (a : Alert) (status prev : String) (w : World)
    → IsReliable e
    → trim_space a.fingerprint ≢ ""
    → InStep status
        (lookup (trim_space a.fingerprint) (sync_incident e a status prev w).1.incidents)
unfolding sync_incident new_incident updated_incident
sync_incident-InStep e a status prev w ok named =
    elim (Bool-cases (trim_space a.fingerprint is "")) [
      | inl h ↦ absurd (named ((str_eq_iff _ _).0 h))
      | inr h ↦
          rw (h, ok.incident_read) (by_row (lookup (trim_space a.fingerprint) w.incidents) refl)
    ]
  where
    by_row :
        (row : Option Incident)
        → lookup (trim_space a.fingerprint) w.incidents ≡ row
        → InStep status (
            lookup
              (trim_space a.fingerprint)
              (sync_row e a (trim_space a.fingerprint) status prev row w).1.incidents)
    by_row none h = elim (Bool-cases (status is "fail")) [
      | inl f ↦ rw (f, ok.incident_write, lookup-insert_self (trim_space a.fingerprint)) (rw f refl)
      | inr f ↦ rw (f, h) f
    ]
    by_row (some i) h =
        rw (ok.incident_write, lookup-insert_self (trim_space a.fingerprint))
          (ground (arith, str_eq_iff i.status "recovered"))
