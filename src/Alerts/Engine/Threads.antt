-- ===== src/Alerts/Engine/Threads.antt =====
-- A check that recovers while it is muted keeps the message ids of its last failure.
use x_ui_aggr.Prelude.{
  String, ◌≡◌, ◌≢◌, refl, subst, ◌∙◌, ap, Bool, true, false, none, some, List, lookup, ◌is◌,
  is_empty, Option, inl,
}
use x_ui_aggr.Alerts.Types.{Alert, AlertState, World, Env, UuidCodec}
use x_ui_aggr.Alerts.Policy.{Policy}
use x_ui_aggr.Alerts.Messages.{message_ids_from_json, message_ids_of}
use x_ui_aggr.Alerts.Fingerprint.{fingerprint_for}
use x_ui_aggr.Alerts.Store.{update_state, updated_row, incident_uuid_from_alert}
use x_ui_aggr.Alerts.Store.Rows.{
  IsReliable, SameRow, SameColumns, ensure_alert_id-SameRow, update_state-found,
  states-sync_incident,
}
use x_ui_aggr.Alerts.Mute.{is_muted, is_before}
use x_ui_aggr.Alerts.Engine.{
  Sample, update_and_sync, was_exactly_fail, prepare, process, status_of, maybe_send_alert,
}
use x_ui_aggr.Alerts.Engine.Quiet.{reported_alert, alert_reaches_every_chat}
use x_ui_aggr.Alerts.Engine.Reach.{Reports}
use x_ui_aggr.Alerts.Types.{ClientCall}
use x_ui_aggr.Prelude.{◌++◌}

-- The row of a fingerprint has this status, and still the message ids that are given.
pub record Keeps (fp status : String) (r : AlertState) (w : World) : Type 0 where
  pub row : AlertState
  pub stored : lookup fp w.states ≡ some row
  pub last_status : row.last_status ≡ some status
  pub last_message_ids : row.last_message_ids ≡ r.last_message_ids

SameRow-some :
    (s : Option AlertState) (r : AlertState)
    → SameRow s (some r)
    → (t : AlertState) × (s ≡ some t) × SameColumns t r
SameRow-some none r h = absurd h
SameRow-some (some t) r h = (t, refl, h)

ok_is_not_fail : ("ok" is "fail") ≡ false
unfolding ◌is◌
ok_is_not_fail = refl

was_exactly_fail-ok :
    (u : UuidCodec) (e : Env) (st : AlertState)
    → st.last_status ≡ some "ok"
    → was_exactly_fail u e (some st) ≡ false
was_exactly_fail-ok u e st h = rw (h, was_exactly_fail) ok_is_not_fail

update_and_sync-Keeps :
    (u : UuidCodec) (e : Env) (s : Sample) (w : World) (st t r : AlertState)
    → e.state_write_ok ≡ true
    → s.state ≡ some st
    → lookup s.alert.fingerprint w.states ≡ some t
    → t.last_message_ids ≡ r.last_message_ids
    → Keeps s.alert.fingerprint s.alert.status r
        (update_and_sync u e s s.alert.status s.prev_ok_streak w)
unfolding update_and_sync updated_row
update_and_sync-Keeps u e s w st t r ok found stored same =
    let id = incident_uuid_from_alert u s.alert in
    record {
      row =
          updated_row u e s.alert st s.alert.status false s.prev_message_ids s.prev_ok_streak id t;
      stored =
          ap (lookup s.alert.fingerprint) (
            states-sync_incident u e s.alert s.alert.status s.prev_status (
              update_state u e s.alert s.state s.alert.status false s.prev_message_ids
                s.prev_ok_streak id w))
          ∙ rw found (
              update_state-found u e s.alert st s.alert.status false s.prev_message_ids
                s.prev_ok_streak id w t ok stored);
      last_status = refl;
      last_message_ids = same;
    }

module _ (u : UuidCodec) (e : Env) (ok : IsReliable e) (active : Bool) (a : Alert) (w : World) where
  abbrev pub sample : Sample
  sample = (prepare u e active a w).0

  abbrev pub prepared : World
  prepared = (prepare u e active a w).1

  loaded :
      (r : AlertState)
      → lookup sample.alert.fingerprint w.states ≡ some r
      → SameRow sample.state (some r)
        × SameRow (lookup sample.alert.fingerprint prepared.states) (some r)
  unfolding prepare
  loaded r h =
      let fp = fingerprint_for u (record a { status = status_of active a }) in
      rw h at (ensure_alert_id-SameRow u e fp w ok.load)

  -- With a reliable database a check that turns ok while its mute lasts is stored as ok, but its row
  -- keeps the message ids that it had.
  pub muted_recovery-Keeps :
      (p : Policy) (chats : List String) (r : AlertState)
      → sample.alert.status ≡ "ok"
      → is_before e.now sample.alert.mute_until ≡ true
      → lookup sample.alert.fingerprint w.states ≡ some r
      → Keeps sample.alert.fingerprint "ok" r (maybe_send_alert u e p chats active a w)
  unfolding maybe_send_alert process
  muted_recovery-Keeps p chats r good muted h =
      let s = sample in
      let (hs, ht) = loaded r h in
      let (st, found, _) = SameRow-some s.state r hs in
      let (t, stored, same) = SameRow-some (lookup s.alert.fingerprint prepared.states) r ht in
      rw muted (
        subst
          (λ status.
            Keeps s.alert.fingerprint status r
              (update_and_sync u e s s.alert.status s.prev_ok_streak prepared))
          good
          (update_and_sync-Keeps u e s prepared st t r ok.state_write found stored
            same.last_message_ids))

  prev_ids :
      (st : AlertState)
      → sample.state ≡ some st
      → sample.prev_message_ids ≡ message_ids_from_json st.last_message_ids
  unfolding prepare message_ids_of
  prev_ids st h = ap message_ids_of h

  -- With a reliable database a row that is stored as ok and still has message ids makes the next
  -- failure that no mute holds back be reported at once to every chat, whatever delay and number of
  -- failures the policy asks for: the calls are an edit of the message that the chat has from before,
  -- after a failed edit also a new message, and a new message to a chat that has none.
  pub stale_thread_skips_policy :
      (p : Policy) (chats : List String) (r : AlertState)
      → Keeps sample.alert.fingerprint "ok" r w
      → is_empty (message_ids_from_json r.last_message_ids) ≡ false
      → sample.alert.status ≢ "ok"
      → is_before e.now sample.alert.mute_until ≡ false
      → (is_muted e sample.alert.fingerprint prepared).0 ≡ false
      → (new : List ClientCall) × ((maybe_send_alert u e p chats active a w).calls ≡ w.calls ++ new)
        × Reports e
            (reported_alert u e sample)
            (message_ids_from_json r.last_message_ids)
            0
            chats
            new
  stale_thread_skips_policy p chats r k shown bad over unmuted =
      let (st, found, same) = SameRow-some sample.state k.row (loaded k.row k.stored).0 in
      let ids : sample.prev_message_ids ≡ message_ids_from_json r.last_message_ids =
        prev_ids st found ∙ ap message_ids_from_json (same.last_message_ids ∙ k.last_message_ids) in
      let threaded : is_empty sample.prev_message_ids ≡ false = rw ids shown in
      let (new, eq, reports) = alert_reaches_every_chat u e p chats active a w bad (
        over,
        inl threaded,
        inl threaded,
        inl (
            ap (was_exactly_fail u e) found
            ∙ was_exactly_fail-ok u e st (same.last_status ∙ k.last_status)),
        unmuted,
      ) in
      (new, eq, rw ids at reports)
