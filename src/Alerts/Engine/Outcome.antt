-- ===== src/Alerts/Engine/Outcome.antt =====
-- What a run of the engine leaves in the database.
use x_ui_aggr.Prelude.{
  ltb→lt, ◌<◌, ℕ, String, ◌≡◌, ◌≢◌, ◌⊎◌, inl, inr, refl, sym, ◌&&◌, Bool, true, false, Option, none,
  some, List, Map, arith, lookup, ◌is◌, str_eq_iff, Bool-cases, is_empty, ltb, ◌+◌,
}
use x_ui_aggr.Prelude.Strings.{trim_space}
use x_ui_aggr.Alerts.Types.{Alert, AlertState, World, Env, UuidCodec}
use x_ui_aggr.Alerts.Policy.{Policy, recover_after}
use x_ui_aggr.Alerts.Fingerprint.{fingerprint_for}
use x_ui_aggr.Alerts.Store.{
  update_state, sync_incident, updated_row, new_row, is_some, incident_uuid_from_alert,
}
use x_ui_aggr.Alerts.Store.Rows.{
  IsReliable, SameRow, InStep, ensure_alert_id-SameRow, update_state-found, update_state-missing,
  incidents-update_state, states-sync_incident, sync_incident-InStep,
}
use x_ui_aggr.Alerts.Mute.{is_muted, is_before}
use x_ui_aggr.Alerts.Engine.{
  Sample, sync_and_update, update_and_sync, on_ok, on_fail, is_delayed, is_too_few, is_threaded,
  report, numbered, deliver, process, prepare, status_of, maybe_send_alert,
}

-- The sample holds a row exactly if the table does.
abbrev pub BothOrNone : Option AlertState → Option AlertState → Type 0
BothOrNone s t =
    ((s ≡ none) × (t ≡ none)) ⊎ ((a : AlertState) × (b : AlertState) × (s ≡ some a) × (t ≡ some b))

SameRow-BothOrNone : (s t o : Option AlertState) → SameRow s o → SameRow t o → BothOrNone s t
SameRow-BothOrNone none none o h k = inl (refl, refl)
SameRow-BothOrNone (some a) (some b) o h k = inr (a, b, refl, refl)
SameRow-BothOrNone none (some b) none h k = absurd k
SameRow-BothOrNone none (some b) (some c) h k = absurd h
SameRow-BothOrNone (some a) none none h k = absurd h
SameRow-BothOrNone (some a) none (some c) h k = absurd k

-- The row of the fingerprint has this status, and its incident is in step with it.
pub record IsWritten (fp status : String) (w : World) : Type 0 where
  pub row : AlertState
  pub stored : lookup fp w.states ≡ some row
  pub last_status : row.last_status ≡ some status
  pub in_step : InStep status (lookup (trim_space fp) w.incidents)

module _ (u : UuidCodec) (e : Env) (ok : IsReliable e) where
  row_written :
      (a : Alert) (state : Option AlertState) (status : String) (notified : Bool) (ids : Map ℕ)
      (streak : ℕ) (id : Option ℕ) (w : World)
      → BothOrNone state (lookup a.fingerprint w.states)
      → (r : AlertState) × (lookup a.fingerprint
            (update_state u e a state status notified ids streak id w).states
          ≡ some r)
        × (r.last_status ≡ some status)
  unfolding updated_row new_row
  row_written a state status notified ids streak id w (inl (h, k)) = (
    new_row u e a status ids streak id,
    rw h (update_state-missing u e a status notified ids streak id w ok.state_write k),
    refl,
  )
  row_written a state status notified ids streak id w (inr (s, t, h, k)) = (
    updated_row u e a s status notified ids streak id t,
    rw h (update_state-found u e a s status notified ids streak id w t ok.state_write k),
    refl,
  )

  sync_and_update-IsWritten :
      (a : Alert) (s : Sample) (status : String) (notified : Bool) (ids : Map ℕ) (w : World)
      → trim_space a.fingerprint ≢ ""
      → BothOrNone s.state (lookup a.fingerprint w.states)
      → IsWritten a.fingerprint status (sync_and_update u e a s status notified ids w)
  unfolding sync_and_update
  sync_and_update-IsWritten a s status notified ids w named both =
      let (id, w') = sync_incident e a status s.prev_status w in
      let (r, h, k) =
        row_written a s.state status notified ids 0 id w'
          (rw (states-sync_incident u e a status s.prev_status w) both) in
      record {
        row = r;
        stored = h;
        last_status = k;
        in_step =
            rw (incidents-update_state u e a s.state status notified ids 0 id w')
              (sync_incident-InStep e a status s.prev_status w ok named);
      }

  update_and_sync-IsWritten :
      (s : Sample) (status : String) (streak : ℕ) (w : World)
      → trim_space s.alert.fingerprint ≢ ""
      → BothOrNone s.state (lookup s.alert.fingerprint w.states)
      → IsWritten s.alert.fingerprint status (update_and_sync u e s status streak w)
  unfolding update_and_sync
  update_and_sync-IsWritten s status streak w named both =
      let id = incident_uuid_from_alert u s.alert in
      let w' = update_state u e s.alert s.state status false s.prev_message_ids streak id w in
      let (r, h, k) =
        row_written s.alert s.state status false s.prev_message_ids streak id w both in
      record {
        row = r;
        stored = rw (states-sync_incident u e s.alert status s.prev_status w') h;
        last_status = k;
        in_step = sync_incident-InStep e s.alert status s.prev_status w' ok named;
      }

  -- The status that is written: that of the sample, or that of a failure which an ok sample does not
  -- end, since with it there are fewer ok samples in a row than the alert asks for.
  abbrev pub Ends : Sample → World → Type 0
  Ends s w =
      (status : String) × IsWritten s.alert.fingerprint status w
      × ((status ≡ s.alert.status)
          ⊎ ((status ≡ "fail")
              × (s.alert.status ≡ "ok")
              × (s.prev_status ≡ "fail")
              × (s.prev_ok_streak + 1 < recover_after s.alert)))

  -- The two parts of the test of `on_ok`.
  was_failing :
      (s : Sample) → (is_some s.state && s.prev_status is "fail") ≡ true → s.prev_status ≡ "fail"
  was_failing s h = ground (arith, str_eq_iff s.prev_status "fail")

  on_ok-Ends :
      (chats : List String) (s : Sample) (w : World)
      → trim_space s.alert.fingerprint ≢ ""
      → BothOrNone s.state (lookup s.alert.fingerprint w.states)
      → s.alert.status ≡ "ok"
      → Ends s (on_ok u e chats s w)
  unfolding on_ok
  on_ok-Ends chats s w named both k =
      elim (Bool-cases (is_some s.state && s.prev_status is "fail")) [
        | inr first ↦
            ("ok", rw first (sync_and_update-IsWritten _ s "ok" _ _ w named both), inl (sym k))
        | inl failing ↦ elim (Bool-cases (ltb (s.prev_ok_streak + 1) (recover_after s.alert))) [
          | inl early ↦ (
            "fail",
            rw (failing, early) (update_and_sync-IsWritten s "fail" _ w named both),
            inr (
              refl,
              k,
              was_failing s failing,
              ltb→lt (s.prev_ok_streak + 1) (recover_after s.alert) early,
            ),
          )
          | inr late ↦ elim (Bool-cases (is_empty s.prev_message_ids)) [
            | inl silent ↦ (
              "ok",
              rw (failing, late, silent) (sync_and_update-IsWritten _ s "ok" _ _ w named both),
              inl (sym k),
            )
            | inr shown ↦ (
              "ok",
              rw (failing, late, shown) (sync_and_update-IsWritten _ s "ok" _ _ _ named both),
              inl (sym k),
            )
          ]
        ]
      ]

  states-is_muted : (fp : String) (w : World) → (is_muted e fp w).1.states ≡ w.states
  unfolding is_muted
  states-is_muted fp w = ground arith

  deliver-IsWritten :
      (chats : List String) (s : Sample) (a : Alert) (w : World)
      → trim_space a.fingerprint ≢ ""
      → BothOrNone s.state (lookup a.fingerprint w.states)
      → IsWritten a.fingerprint s.alert.status (deliver u e chats s a w)
  unfolding deliver
  deliver-IsWritten chats s a w named both =
      sync_and_update-IsWritten a s s.alert.status true _ _ named both

  fingerprint-numbered : (s : Sample) (a : Alert) → (numbered u e s a).fingerprint ≡ a.fingerprint
  unfolding numbered
  fingerprint-numbered s a = ground arith

  report-IsWritten :
      (chats : List String) (s : Sample) (n : ℕ) (w : World)
      → trim_space s.alert.fingerprint ≢ ""
      → BothOrNone s.state (lookup s.alert.fingerprint w.states)
      → IsWritten s.alert.fingerprint s.alert.status
          (report u e chats s (record s.alert { occurrences = n }) w)
  unfolding report numbered
  report-IsWritten chats s n w named both =
      let a : Alert = record s.alert { occurrences = n } in
      let again = numbered u e s a in
      let fp = fingerprint-numbered s a in
      let w' = (is_muted e s.alert.fingerprint w).1 in
      let named' : trim_space again.fingerprint ≢ "" = rw fp named in
      let both' : BothOrNone s.state (lookup again.fingerprint w'.states) =
        rw (fp, states-is_muted s.alert.fingerprint w) both in
      elim (Bool-cases (is_muted e s.alert.fingerprint w).0) [
        | inl m ↦ rw m (
            rw fp at (
              sync_and_update-IsWritten again s s.alert.status false s.prev_message_ids w' named'
                both'))
        | inr m ↦ rw m (rw fp at (deliver-IsWritten chats s again w' named' both'))
      ]

  on_fail-IsWritten :
      (p : Policy) (chats : List String) (s : Sample) (w : World)
      → trim_space s.alert.fingerprint ≢ ""
      → BothOrNone s.state (lookup s.alert.fingerprint w.states)
      → IsWritten s.alert.fingerprint s.alert.status (on_fail u e p chats s w)
  unfolding on_fail
  on_fail-IsWritten p chats s w named both = elim (Bool-cases (is_delayed u e p s)) [
    | inl d ↦ rw d (sync_and_update-IsWritten _ s _ _ _ w named both)
    | inr d ↦ elim (Bool-cases (is_too_few u e p s)) [
      | inl f ↦ rw (d, f) (sync_and_update-IsWritten _ s _ _ _ w named both)
      | inr f ↦ elim (Bool-cases (is_threaded u e chats s)) [
        | inl t ↦ rw (d, f, t) (sync_and_update-IsWritten _ s _ _ _ w named both)
        | inr t ↦ rw (d, f, t) (report-IsWritten chats s _ w named both)
      ]
    ]
  ]

  pub prepare-BothOrNone :
      (active : Bool) (a : Alert) (w : World)
      → BothOrNone
          (prepare u e active a w).0.state
          (lookup (prepare u e active a w).0.alert.fingerprint (prepare u e active a w).1.states)
  unfolding prepare
  prepare-BothOrNone active a w =
      let fp = fingerprint_for u (record a { status = status_of active a }) in
      let (h, k) = ensure_alert_id-SameRow u e fp w ok.load in
      SameRow-BothOrNone _ _ (lookup fp w.states) h k

  -- With a reliable database, after every run of the engine the table has a row for the alert's
  -- fingerprint whose status is the sample's, or "fail" if the sample is ok, the row was failing, and
  -- the ok samples in a row are, with this one, fewer than the alert asks for; and the incident of the fingerprint agrees with it: for "fail" there is one and it is open, for
  -- any other status there is none or it is recovered.
  pub row_and_incident_agree :
      (p : Policy) (chats : List String) (active : Bool) (a : Alert) (w : World)
      → trim_space (prepare u e active a w).0.alert.fingerprint ≢ ""
      → Ends (prepare u e active a w).0 (maybe_send_alert u e p chats active a w)
  unfolding maybe_send_alert process
  row_and_incident_agree p chats active a w named =
      let (s, w') = prepare u e active a w in
      let both = prepare-BothOrNone active a w in
      elim (Bool-cases (is_before e.now s.alert.mute_until)) [
        | inl m ↦ (
          s.alert.status,
          rw m (update_and_sync-IsWritten s s.alert.status s.prev_ok_streak w' named both),
          inl refl,
        )
        | inr m ↦ elim (Bool-cases (s.alert.status is "ok")) [
          | inl k ↦ rw (m, k) (on_ok-Ends chats s w' named both ((str_eq_iff _ _).0 k))
          | inr k ↦
              (s.alert.status, rw (m, k) (on_fail-IsWritten p chats s w' named both), inl refl)
        ]
      ]
