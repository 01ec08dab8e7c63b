-- ===== src/Alerts/Tests/Rules.antt =====
-- The stale thread, the policy's limits and the deduper at concrete inputs.
use x_ui_aggr.Prelude.{
  ℕ, ◌*◌, ◌+◌, ◌≤◌, ◌≡◌, ◌≢◌, refl, some, List, [], ◌∷◌, All, arith, lookup, insert, is_empty, true,
  false, if◌then◌else◌, min, max, str_eq_iff, ◌<◌,
}
use x_ui_aggr.Prelude.Int.{pos, negsuc, pos_part, leb_ℤ}
use x_ui_aggr.Alerts.Types.{Alert, AlertState, World, ClientCall}
use x_ui_aggr.Alerts.Engine.Quiet.{reported_alert}
use x_ui_aggr.Alerts.Engine.Reach.{Reports}
use x_ui_aggr.Prelude.{◌++◌}
use x_ui_aggr.Alerts.Policy.{
  default_policy, minute, second, normalize_policy_minutes, max_policy_minutes,
  default_ack_mute_minutes, default_button_mute_mins, min_consecutive_fails, recover_after,
  fail_delay,
}
use x_ui_aggr.Alerts.Policy.Bounds.{normalize_policy_minutes_bounds, thresholds}
use x_ui_aggr.Alerts.Messages.{message_ids_from_json}
use x_ui_aggr.Alerts.Mute.{is_muted, is_before}
use x_ui_aggr.Alerts.Engine.{maybe_send_alert}
use x_ui_aggr.Alerts.Engine.Threads
use x_ui_aggr.Alerts.Engine.Threads.{Keeps, stale_thread_skips_policy}
use x_ui_aggr.Alerts.Dedup.{Deduper, new_deduper, track, track_entry}
use x_ui_aggr.Alerts.Dedup.Window.{
  InWindow, track_all, count, suppressed_within_ttl, reported_opens_window,
}
use x_ui_aggr.Alerts.Samples.{
  env-IsReliable, codec, chats, alert, fp, env, failing_row, world_with, run_at,
}

abbrev stale_row : AlertState
stale_row = record (failing_row minute 2 (("100", 8) ∷ ("200", 9) ∷ [])) { last_status = some "ok" }

abbrev stale : World
stale = world_with stale_row

is_bad :
    (Threads.sample codec
      (env (30 * minute))
      (env-IsReliable (30 * minute))
      true
      alert
      stale).alert.status
    ≢ "ok"
unfolding run_at
is_bad h = cc (h, (str_eq_iff "fail" "ok").1 h)

stale-Keeps :
    Keeps
      (Threads.sample codec
        (env (30 * minute))
        (env-IsReliable (30 * minute))
        true
        alert
        stale).alert.fingerprint
      "ok"
      stale_row
      stale
unfolding run_at
stale-Keeps = record { row = stale_row; stored = refl; last_status = refl; last_message_ids = refl }

is_over :
    is_before
      (env (30 * minute)).now
      (Threads.sample codec
        (env (30 * minute))
        (env-IsReliable (30 * minute))
        true
        alert
        stale).alert.mute_until
    ≡ false
unfolding run_at
is_over = refl

is_unmuted :
    (is_muted
      (env (30 * minute))
      (Threads.sample codec
        (env (30 * minute))
        (env-IsReliable (30 * minute))
        true
        alert
        stale).alert.fingerprint
      (Threads.prepared codec
        (env (30 * minute))
        (env-IsReliable (30 * minute))
        true
        alert
        stale)).0
    ≡ false
unfolding run_at
is_unmuted = refl

is_shown : is_empty (message_ids_from_json stale_row.last_message_ids) ≡ false
unfolding run_at message_ids_from_json insert
is_shown = refl

stale_thread_skips_policy_example :
    (new : List ClientCall) × ((maybe_send_alert codec
        (env (30 * minute))
        default_policy
        chats
        true
        alert
        stale).calls
      ≡ stale.calls ++ new)
    × Reports
        (env (30 * minute))
        (reported_alert codec (env (30 * minute)) (
          Threads.sample codec (env (30 * minute)) (env-IsReliable (30 * minute)) true alert stale))
        (message_ids_from_json stale_row.last_message_ids)
        0
        chats
        new
stale_thread_skips_policy_example =
    stale_thread_skips_policy codec (env (30 * minute)) (env-IsReliable (30 * minute)) true alert
      stale default_policy chats stale_row stale-Keeps is_shown is_bad is_over is_unmuted

normalize_policy_minutes_bounds_example :
    let (a, m) = normalize_policy_minutes (negsuc 4) (pos 50_000) in
    (0 < a)
    × (a ≤ max_policy_minutes)
    × (a
        ≡ min max_policy_minutes
            (if leb_ℤ (pos 1) (negsuc 4) then pos_part (negsuc 4) else default_ack_mute_minutes))
    × (0 < m)
    × (m ≤ max_policy_minutes)
    × (m
        ≡ min max_policy_minutes (
            if leb_ℤ (pos 1) (pos 50_000) then pos_part (pos 50_000) else default_button_mute_mins))
normalize_policy_minutes_bounds_example = normalize_policy_minutes_bounds (negsuc 4) (pos 50_000)

thresholds_example :
    (0 < min_consecutive_fails default_policy alert.kind)
    × (0 < recover_after alert)
    × (fail_delay default_policy alert
        ≡ max (pos_part default_policy.offline_delay) (pos_part alert.fail_after_sec * second))
thresholds_example = thresholds default_policy alert

abbrev tracked_alert : Alert
tracked_alert = record alert { fingerprint = fp }

abbrev opened : Deduper
opened = (track tracked_alert 100 (new_deduper 60)).1

is_fresh : (track tracked_alert 100 (new_deduper 60)).0 ≡ true
unfolding track track_entry lookup
is_fresh = refl

reported_opens_window_example : InWindow tracked_alert.fingerprint 100 1 opened
reported_opens_window_example = reported_opens_window tracked_alert 100 (new_deduper 60) is_fresh

abbrev others : List (Alert × ℕ)
others = (tracked_alert, 110) ∷ (record alert { fingerprint = "cpu|2" }, 120) ∷ []

opened_ttl : opened.ttl ≡ 60
unfolding track
opened_ttl = refl

others_in_time : All (λ (x : Alert × ℕ). x.1 ≤ 100 + opened.ttl) others
others_in_time = (omega (arith, opened_ttl), omega (arith, opened_ttl))

suppressed_within_ttl_example :
    ((track tracked_alert 150 (track_all others opened)).0 ≡ false)
    × InWindow fp 100 (count fp others + 1) (track_all others opened)
suppressed_within_ttl_example =
    suppressed_within_ttl fp 100 1 others opened tracked_alert 150
      (reported_opens_window tracked_alert 100 (new_deduper 60) is_fresh) others_in_time refl
      (omega (arith, opened_ttl))
