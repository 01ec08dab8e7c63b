-- ===== src/Alerts/Engine/Quiet.antt =====
-- When the engine calls Telegram, and how often.
use x_ui_aggr.Prelude.{
  ◌⊎◌, inl, inr, ◌+◌, ◌≤◌, String, ◌≡◌, ◌≢◌, refl, ◌∙◌, ap, Bool, true, false, List, [], ◌++◌,
  arith, ◌is◌, str_eq_iff, is_empty, Bool-cases, ◌&&◌, if◌then◌else◌,
}
use x_ui_aggr.Alerts.Types.{Alert, World, Env, UuidCodec, ClientCall}
use x_ui_aggr.Alerts.Policy.{
  Policy, requires_offline_delay, min_consecutive_fails, fail_delay, recover_after,
}
use x_ui_aggr.Alerts.Messages.{has_message_thread_for_all_chats}
use x_ui_aggr.Alerts.Engine.Reach.{sends, Reports, sends-Reports, send_all-calls, edit_all-Reports}
use x_ui_aggr.Alerts.Mute.{is_muted, is_before}
use x_ui_aggr.Alerts.Engine.{
  Sample, on_fail, next_occurrences, fail_started_at, is_delayed, is_too_few, is_threaded,
  was_exactly_fail, occurrences_of, numbered, report, deliver, process, prepare, maybe_send_alert,
}
use x_ui_aggr.Alerts.Engine.Calls.{calls-is_muted, calls-sync_and_update, calls-prepare}

module _ (u : UuidCodec) (e : Env) where
  -- When a sample that is ok is to be reported: it ends a stream of failures that was shown in a
  -- chat, with as many ok samples in a row as the alert asks for.
  abbrev pub RecoveryDue : Sample → Type 0
  RecoveryDue s =
      (is_before e.now s.alert.mute_until ≡ false)
      × (s.prev_status ≡ "fail")
      × (recover_after s.alert ≤ s.prev_ok_streak + 1)
      × (is_empty s.prev_message_ids ≡ false)

  -- When a sample that is not ok is to be reported.
  abbrev pub AlertDue : Policy → List String → Sample → World → Type 0
  AlertDue p chats s w =
      (is_before e.now s.alert.mute_until ≡ false)
      × ((is_empty s.prev_message_ids ≡ false)
          ⊎ (requires_offline_delay s.alert.kind ≡ false)
          ⊎ (fail_started_at u e s + fail_delay p s.alert ≤ e.now))
      × ((is_empty s.prev_message_ids ≡ false)
          ⊎ (min_consecutive_fails p s.alert.kind ≤ next_occurrences u e s))
      × ((was_exactly_fail u e s.state ≡ false)
          ⊎ (has_message_thread_for_all_chats chats s.prev_message_ids ≡ false))
      × ((is_muted e s.alert.fingerprint w).0 ≡ false)

  -- The alert of the message that a failure has ended.
  abbrev pub recovered_alert : Sample → Alert
  recovered_alert s = record s.alert { occurrences = occurrences_of s.state }

  -- The alert of the message that there is a failure.
  abbrev pub reported_alert : Sample → Alert
  reported_alert s = numbered u e s (record s.alert { occurrences = next_occurrences u e s })

  deliver-Reports :
      (chats : List String) (s : Sample) (a : Alert) (w : World)
      → (new : List ClientCall) × ((deliver u e chats s a w).calls ≡ w.calls ++ new)
        × Reports e a s.prev_message_ids 0 chats new
  unfolding deliver
  deliver-Reports chats s a w = elim (Bool-cases (is_empty s.prev_message_ids)) [
    | inl unsent ↦ (
      sends a chats,
      rw unsent (
          calls-sync_and_update u e a s s.alert.status true _ _
          ∙ send_all-calls e a 0 chats s.prev_message_ids w.calls),
      sends-Reports e a s.prev_message_ids 0 chats unsent,
    )
    | inr shown ↦
        let (new, eq, r) = edit_all-Reports e a 0 chats s.prev_message_ids [] w.calls in
        (new, rw shown (calls-sync_and_update u e a s s.alert.status true _ _ ∙ eq), r)
  ]

  due_is_delayed :
      (p : Policy) (chats : List String) (s : Sample) (w : World)
      → AlertDue p chats s w
      → is_delayed u e p s ≡ false
  unfolding is_delayed
  due_is_delayed p chats s w h = ground (arith, h.1)

  due_is_too_few :
      (p : Policy) (chats : List String) (s : Sample) (w : World)
      → AlertDue p chats s w
      → is_too_few u e p s ≡ false
  unfolding is_too_few
  due_is_too_few p chats s w h = ground (arith, h.2)

  due_is_threaded :
      (p : Policy) (chats : List String) (s : Sample) (w : World)
      → AlertDue p chats s w
      → is_threaded u e chats s ≡ false
  unfolding is_threaded
  due_is_threaded p chats s w h = elim h.3 [
    | inl other ↦ rw other refl
    | inr missing ↦ rw missing (by_if _ _)
  ]
    where
      by_if : (b c : Bool) → (b && (if c then false else false)) ≡ false
      by_if true true = refl
      by_if true false = refl
      by_if false c = refl

  fail-Reports :
      (p : Policy) (chats : List String) (s : Sample) (w : World)
      → AlertDue p chats s w
      → (new : List ClientCall) × ((on_fail u e p chats s w).calls ≡ w.calls ++ new)
        × Reports e (reported_alert s) s.prev_message_ids 0 chats new
  unfolding on_fail report
  fail-Reports p chats s w h =
      let w' = (is_muted e s.alert.fingerprint w).1 in
      let (new, eq, r) = deliver-Reports chats s (reported_alert s) w' in
      (
        new,
        rw
            (
              due_is_delayed p chats s w h,
              due_is_too_few p chats s w h,
              due_is_threaded p chats s w h,
              h.4,
            )
            (eq ∙ ap (λ c. c ++ new) (calls-is_muted u e s.alert.fingerprint w)),
        r,
      )

  module _ (p : Policy) (chats : List String) (active : Bool) (a : Alert) (w : World) where
    abbrev pub sample : Sample
    sample = (prepare u e active a w).0

    abbrev pub prepared : World
    prepared = (prepare u e active a w).1

    -- Where a report of a failure is due, the run adds the calls that report it to every chat, in their
    -- order: an edit of the message that the chat has from before, after a failed edit also a new
    -- message, and a new message to a chat that has none.
    pub alert_reaches_every_chat :
        sample.alert.status ≢ "ok"
        → AlertDue p chats sample prepared
        → (new : List ClientCall) × ((maybe_send_alert u e p chats active a w).calls
            ≡ w.calls ++ new)
          × Reports e (reported_alert sample) sample.prev_message_ids 0 chats new
    unfolding maybe_send_alert process
    alert_reaches_every_chat bad due = elim (Bool-cases (sample.alert.status is "ok")) [
      | inl k ↦ absurd (bad ((str_eq_iff _ _).0 k))
      | inr k ↦
          let (new, eq, r) = fail-Reports p chats sample prepared due in
          (new, rw (due.0, k) (eq ∙ ap (λ c. c ++ new) (calls-prepare u e active a w)), r)
    ]
