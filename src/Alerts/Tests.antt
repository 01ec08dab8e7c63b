-- ===== src/Alerts/Tests.antt =====
-- Runs of the alert engine, and its theorems at concrete inputs.
pub mod Rules
mod Callbacks
use x_ui_aggr.Prelude.{ℕ, ◌≡◌, refl, none, some, [], ◌∷◌, lookup, length, ◌is◌, true, false}
use x_ui_aggr.Alerts.Types.{Alert, World, send_alert, edit_alert, send_recovery}
use x_ui_aggr.Alerts.Policy.{Policy, default_policy, minute}
use x_ui_aggr.Alerts.Fingerprint.{fingerprint_for}
use x_ui_aggr.Alerts.Engine.{status_of, prepare, maybe_send_alert}
use x_ui_aggr.Alerts.Types.{ClientCall}
use x_ui_aggr.Prelude.{◌++◌}
use x_ui_aggr.Alerts.Engine.Reach.{Reports}
use x_ui_aggr.Alerts.Engine.Quiet.{
  reported_alert, sample, prepared, AlertDue, alert_reaches_every_chat,
}
use x_ui_aggr.Alerts.Types.{Env, AlertState}
use x_ui_aggr.Alerts.Mute.{is_before, is_muted}
use x_ui_aggr.Alerts.Engine.{Sample}
use x_ui_aggr.Alerts.Engine.Outcome.{Ends, row_and_incident_agree}
use x_ui_aggr.Alerts.Engine.Stream.{Beat}
use x_ui_aggr.Alerts.Engine.Threads
use x_ui_aggr.Alerts.Engine.Threads.{Keeps, muted_recovery-Keeps, stale_thread_skips_policy}
use x_ui_aggr.Prelude.Strings.{trim_space}
use x_ui_aggr.Prelude.{List, ◌≤◌, arith, is_empty, str_eq_iff, ◌≢◌, inl, inr, ◌*◌}
use x_ui_aggr.Prelude.Int.{pos}
use x_ui_aggr.Alerts.Samples.{
  env-IsReliable, codec, chats, alert, fp, env, empty_world, failing_row, world_with, ticks, run_at,
}

fingerprint_run : fingerprint_for codec alert ≡ fp
unfolding fingerprint_for ticks ◌is◌
fingerprint_run = refl

-- A first failure is stored and not sent; the second, six minutes later, goes to both chats.
first_failure : (run_at minute alert empty_world).calls ≡ []
unfolding run_at
first_failure = refl

abbrev failing : World
failing = world_with (failing_row minute 1 [])

second_failure : length (run_at (7 * minute) alert failing).calls ≡ 2
unfolding run_at
second_failure = refl

abbrev shown : World
shown = world_with (failing_row minute 2 (("100", 8) ∷ ("200", 9) ∷ []))

abbrev good_alert : Alert
good_alert = record alert { status = "ok"; recover_after_ok = pos 1 }

abbrev at_nine : Env
at_nine = env (9 * minute)

abbrev good_sample : Sample
good_sample = sample codec at_nine default_policy chats true good_alert shown

abbrev bad_sample : Sample
bad_sample = sample codec (env (7 * minute)) default_policy chats true alert failing

bad_is_due :
    AlertDue codec
      (env (7 * minute))
      default_policy
      chats
      bad_sample
      (prepared codec (env (7 * minute)) default_policy chats true alert failing)
unfolding run_at
bad_is_due = (refl, inr (inr (omega arith)), inr (omega arith), inr refl, refl)

bad_is_bad : bad_sample.alert.status ≢ "ok"
unfolding run_at
bad_is_bad h = cc (h, (str_eq_iff "fail" "ok").1 h)

alert_reaches_every_chat_example :
    (new : List ClientCall) × ((maybe_send_alert codec
        (env (7 * minute))
        default_policy
        chats
        true
        alert
        failing).calls
      ≡ failing.calls ++ new)
    × Reports
        (env (7 * minute))
        (reported_alert codec (env (7 * minute)) bad_sample)
        bad_sample.prev_message_ids
        0
        chats
        new
alert_reaches_every_chat_example =
    alert_reaches_every_chat codec (env (7 * minute)) default_policy chats true alert failing
      bad_is_bad bad_is_due

named : trim_space bad_sample.alert.fingerprint ≢ ""
unfolding run_at
named h = cc (h, (str_eq_iff fp "").1 h)

row_and_incident_agree_example :
    Ends codec
      (env (7 * minute))
      (env-IsReliable (7 * minute))
      bad_sample
      (maybe_send_alert codec (env (7 * minute)) default_policy chats true alert failing)
row_and_incident_agree_example =
    row_and_incident_agree codec (env (7 * minute)) (env-IsReliable (7 * minute)) default_policy
      chats true alert failing named

-- A failure, an ok sample and a failure again, a minute apart.
abbrev bad_beat : ℕ → Beat
bad_beat now = record { env = env now; active = true; alert = alert }

abbrev good_beat : ℕ → Beat
good_beat now = record { env = env now; active = true; alert = good_alert }

abbrev beats : List Beat
beats = bad_beat minute ∷ good_beat (2 * minute) ∷ bad_beat (3 * minute) ∷ []

-- The check turns ok during a mute, and fails once after it.
abbrev muted_alert : Alert
muted_alert = record good_alert { mute_until = some (20 * minute) }

abbrev shown_row : AlertState
shown_row = failing_row minute 2 (("100", 8) ∷ ("200", 9) ∷ [])

is_stored :
    lookup
      (Threads.sample codec at_nine
        (env-IsReliable (9 * minute))
        true
        muted_alert
        shown).alert.fingerprint
      shown.states
    ≡ some shown_row
unfolding run_at
is_stored = refl

is_ok :
    (Threads.sample codec at_nine (env-IsReliable (9 * minute)) true muted_alert shown).alert.status
    ≡ "ok"
unfolding run_at
is_ok = refl

is_in_mute :
    is_before at_nine.now
      (Threads.sample codec at_nine
        (env-IsReliable (9 * minute))
        true
        muted_alert
        shown).alert.mute_until
    ≡ true
unfolding run_at
is_in_mute = refl

muted_recovery-Keeps_example :
    Keeps
      (Threads.sample codec at_nine
        (env-IsReliable (9 * minute))
        true
        muted_alert
        shown).alert.fingerprint
      "ok"
      shown_row
      (maybe_send_alert codec at_nine default_policy chats true muted_alert shown)
muted_recovery-Keeps_example =
    muted_recovery-Keeps codec at_nine (env-IsReliable (9 * minute)) true muted_alert shown
      default_policy chats shown_row is_ok is_in_mute is_stored
