-- ===== src/Alerts/Engine/Noise.antt =====
-- Failures that come one by one, or too few in a row, never reach a chat.
use x_ui_aggr.Prelude.{
  ℕ, suc, ◌+◌, ◌≤◌, ◌<◌, String, ◌≡◌, inl, inr, refl, Bool, true, false, ◌&&◌, Option, none, some,
  List, [], ◌∷◌, Map, arith, lookup, ltb, ◌is◌, str_eq_iff, Bool-cases, is_empty, if◌then◌else◌,
}
use x_ui_aggr.Alerts.Types.{Alert, AlertState, World, Env, UuidCodec}
use x_ui_aggr.Alerts.Policy.{Policy, recover_after, min_consecutive_fails}
use x_ui_aggr.Alerts.Fingerprint.{fingerprint_for, normal}
use x_ui_aggr.Alerts.Messages.{message_ids_from_json, message_ids_to_json, message_ids_of}
use x_ui_aggr.Alerts.Store.{update_state, updated_row, new_row, is_some, prev_status_of}
use x_ui_aggr.Alerts.Store.Rows.{
  IsReliable, SameRow, ensure_alert_id-SameRow, update_state-found, update_state-missing,
  states-sync_incident,
}
use x_ui_aggr.Alerts.Engine.{
  Sample, sync_and_update, update_and_sync, on_ok, on_fail, next_occurrences, is_delayed,
  is_too_few, prepare, status_of, last_status_of, occurrences_of,
}
use x_ui_aggr.Alerts.Engine.Calls.{calls-sync_and_update, calls-update_and_sync}
use x_ui_aggr.Alerts.Engine.Outcome.{BothOrNone, prepare-BothOrNone}

-- Nothing was sent for the row, and if it is failing, for the `k`-th time at most.
abbrev pub IsUnsent : ℕ → Option AlertState → Type 0
IsUnsent k none = Unit
IsUnsent k (some r) =
    (is_empty (message_ids_from_json r.last_message_ids) ≡ true)
    × ((if prev_status_of r.last_status is "fail" then r.occurrences else 0) ≤ k)

SameRow-IsUnsent : (k : ℕ) (s t : Option AlertState) → SameRow s t → IsUnsent k t → IsUnsent k s
SameRow-IsUnsent k none t h b = tt
SameRow-IsUnsent k (some r) none h b = absurd h
SameRow-IsUnsent k (some r) (some t) h b =
    (rw h.last_message_ids b.0, rw (h.occurrences, h.last_status) b.1)

pub IsUnsent-mono : (k n : ℕ) (o : Option AlertState) → k ≤ n → IsUnsent k o → IsUnsent n o
IsUnsent-mono k n none h b = tt
IsUnsent-mono k n (some r) h b = (b.0, omega (arith, b.1))

to_json-empty :
    (ids : Map ℕ)
    → is_empty ids ≡ true
    → is_empty (message_ids_from_json (message_ids_to_json ids)) ≡ true
unfolding message_ids_from_json message_ids_to_json
to_json-empty [] h = refl
to_json-empty (x ∷ ids) h = cc

module _ (u : UuidCodec) (e : Env) (ok : IsReliable e) where
  update_state-IsUnsent :
      (n k : ℕ) (a : Alert) (state : Option AlertState) (status : String) (notified : Bool)
      (ids : Map ℕ) (streak : ℕ) (id : Option ℕ) (w : World)
      → BothOrNone state (lookup a.fingerprint w.states)
      → IsUnsent k (lookup a.fingerprint w.states)
      → is_empty ids ≡ true
      → (if normal status is "fail" then a.occurrences else 0) ≤ n
      → IsUnsent n
          (lookup a.fingerprint (update_state u e a state status notified ids streak id w).states)
  unfolding updated_row new_row
  update_state-IsUnsent n k a state status notified ids streak id w (inl (h, m)) b none_sent few =
      rw (h, update_state-missing u e a status notified ids streak id w ok.state_write m)
        (to_json-empty ids none_sent, few)
  update_state-IsUnsent n k a state status notified ids streak id w (inr (s, t, h, m)) b none_sent
        few =
      rw (h, update_state-found u e a s status notified ids streak id w t ok.state_write m)
        (
          elim (Bool-cases notified) [
            | inl yes' ↦ rw yes' (to_json-empty ids none_sent)
            | inr no' ↦ rw no' (rw m at b).0
          ],
          few,
        )

  sync_and_update-IsUnsent :
      (n k : ℕ) (a : Alert) (s : Sample) (status : String) (notified : Bool) (ids : Map ℕ)
      (w : World)
      → BothOrNone s.state (lookup a.fingerprint w.states)
      → IsUnsent k (lookup a.fingerprint w.states)
      → is_empty ids ≡ true
      → (if normal status is "fail" then a.occurrences else 0) ≤ n
      → IsUnsent n (lookup a.fingerprint (sync_and_update u e a s status notified ids w).states)
  unfolding sync_and_update
  sync_and_update-IsUnsent n k a s status notified ids w both b none_sent few =
      let same = states-sync_incident u e a status s.prev_status w in
      update_state-IsUnsent n k a s.state status notified ids 0 _ _ (rw same both) (rw same b)
        none_sent few

  update_and_sync-IsUnsent :
      (n k : ℕ) (s : Sample) (status : String) (streak : ℕ) (w : World)
      → BothOrNone s.state (lookup s.alert.fingerprint w.states)
      → IsUnsent k (lookup s.alert.fingerprint w.states)
      → is_empty s.prev_message_ids ≡ true
      → (if normal status is "fail" then s.alert.occurrences else 0) ≤ n
      → IsUnsent n (lookup s.alert.fingerprint (update_and_sync u e s status streak w).states)
  unfolding update_and_sync
  update_and_sync-IsUnsent n k s status streak w both b none_sent few =
      rw (states-sync_incident u e s.alert status s.prev_status _) (
        update_state-IsUnsent n k s.alert s.state status false s.prev_message_ids streak _ w both b
          none_sent few)

  -- What the steps below are told of a sample.
  pub record IsQuietSample (k : ℕ) (s : Sample) (w : World) : Type 0 where
    pub both : BothOrNone s.state (lookup s.alert.fingerprint w.states)
    pub stored : IsUnsent k (lookup s.alert.fingerprint w.states)
    pub held : IsUnsent k s.state
    pub ids : s.prev_message_ids ≡ message_ids_of s.state
    pub status : s.prev_status ≡ prev_status_of (last_status_of s.state)
    pub fresh : s.alert.occurrences ≡ 0

  pub prepare-IsQuietSample :
      (k : ℕ) (active : Bool) (a : Alert) (w : World)
      → a.occurrences ≡ 0
      → IsUnsent k (lookup (prepare u e active a w).0.alert.fingerprint w.states)
      → IsQuietSample k (prepare u e active a w).0 (prepare u e active a w).1
  unfolding prepare
  prepare-IsQuietSample k active a w zero_occ b =
      let fp = fingerprint_for u (record a { status = status_of active a }) in
      let (h, m) = ensure_alert_id-SameRow u e fp w ok.load in
      record {
        both = prepare-BothOrNone u e ok active a w;
        stored = SameRow-IsUnsent k _ (lookup fp w.states) m b;
        held = SameRow-IsUnsent k _ (lookup fp w.states) h b;
        ids = refl;
        status = refl;
        fresh = zero_occ;
      }

  no_ids :
      (k : ℕ) (s : Sample) (w : World) → IsQuietSample k s w → is_empty s.prev_message_ids ≡ true
  unfolding message_ids_of
  no_ids k s w q = rw q.ids (by_state s.state q.held)
    where
      by_state : (o : Option AlertState) → IsUnsent k o → is_empty (message_ids_of o) ≡ true
      by_state none b = refl
      by_state (some r) b = b.0

  occurrences_of-le :
      (k : ℕ) (o : Option AlertState)
      → IsUnsent k o
      → prev_status_of (last_status_of o) ≡ "fail"
      → occurrences_of o ≤ k
  occurrences_of-le k none b f = omega arith
  occurrences_of-le k (some r) b f =
      ground (arith, str_eq_iff (prev_status_of r.last_status) "fail")

  -- A failure is at most the next one of its stream.
  next_occurrences-le :
      (k : ℕ) (s : Sample) (w : World) → IsQuietSample k s w → next_occurrences u e s ≤ suc k
  unfolding next_occurrences
  next_occurrences-le k s w q =
      ground (arith, q.status, str_eq_iff s.prev_status "fail", occurrences_of-le k s.state q.held)

  -- The state and the calls after a sample.
  abbrev pub IsQuietStep : ℕ → Sample → World → World → Type 0
  IsQuietStep n s w w' = IsUnsent n (lookup s.alert.fingerprint w'.states) × (w'.calls ≡ w.calls)

  quiet_fail :
      (k : ℕ) (s : Sample) (w : World)
      → IsQuietSample k s w
      → IsQuietStep (suc k) s w (
          sync_and_update u e
            (record s.alert { occurrences = next_occurrences u e s })
            s
            s.alert.status
            false
            s.prev_message_ids
            w)
  quiet_fail k s w q = (
    sync_and_update-IsUnsent (suc k) k _ s s.alert.status false s.prev_message_ids w q.both q.stored
        (no_ids k s w q) (ground (arith, next_occurrences-le k s w q)),
    calls-sync_and_update u e _ s s.alert.status false _ w,
  )

  pub fail_step :
      (k : ℕ) (p : Policy) (chats : List String) (s : Sample) (w : World)
      → IsQuietSample k s w
      → suc k < min_consecutive_fails p s.alert.kind
      → IsQuietStep (suc k) s w (on_fail u e p chats s w)
  unfolding on_fail is_too_few
  fail_step k p chats s w q few =
      let too_few : ltb (next_occurrences u e s) (min_consecutive_fails p s.alert.kind) ≡ true =
        ground (arith, next_occurrences-le k s w q) in
      elim (Bool-cases (is_delayed u e p s)) [
        | inl d ↦ rw d (quiet_fail k s w q)
        | inr d ↦ rw (d, no_ids k s w q, too_few) (quiet_fail k s w q)
      ]

  pub ok_step :
      (k : ℕ) (chats : List String) (s : Sample) (w : World)
      → IsQuietSample k s w
      → IsQuietStep 0 s w (on_ok u e chats s w)
  unfolding on_ok
  ok_step k chats s w q = elim (Bool-cases (is_some s.state && s.prev_status is "fail")) [
    | inr first ↦ rw first (
        updated s.alert.occurrences false s.prev_message_ids (no_ids k s w q)
          (omega (arith, q.fresh)))
    | inl failing ↦ elim (Bool-cases (ltb (s.prev_ok_streak + 1) (recover_after s.alert))) [
      | inl early ↦
          rw (failing, early)
            (
              update_and_sync-IsUnsent 0 k s "fail" _ w q.both q.stored (no_ids k s w q)
                  (ground (arith, q.fresh)),
              calls-update_and_sync u e s "fail" _ w,
            )
      | inr late ↦ rw (failing, late, no_ids k s w q) (updated 0 true [] refl (omega arith))
    ]
  ]
    where
      updated :
          (occ : ℕ) (notified : Bool) (ids : Map ℕ)
          → is_empty ids ≡ true
          → occ ≤ 0
          → IsQuietStep 0 s w
              (sync_and_update u e (record s.alert { occurrences = occ }) s "ok" notified ids w)
      updated occ notified ids none_sent z = (
        sync_and_update-IsUnsent 0 k _ s "ok" notified ids w q.both q.stored none_sent
            (ground arith),
        calls-sync_and_update u e _ s "ok" notified ids w,
      )

  pub muted_step :
      (k : ℕ) (s : Sample) (w : World)
      → IsQuietSample k s w
      → IsQuietStep 0 s w (update_and_sync u e s s.alert.status s.prev_ok_streak w)
  muted_step k s w q = (
    update_and_sync-IsUnsent 0 k s s.alert.status s.prev_ok_streak w q.both q.stored
        (no_ids k s w q) (ground (arith, q.fresh)),
    calls-update_and_sync u e s s.alert.status s.prev_ok_streak w,
  )
