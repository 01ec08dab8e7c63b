-- ===== src/Alerts/Policy/Bounds.antt =====
-- The policy's values are in range.
use x_ui_aggr.Prelude.{ℕ, ◌≤◌, ◌<◌, ◌≡◌, ◌*◌, arith, min, max, if◌then◌else◌}
use x_ui_aggr.Prelude.Int.{ℤ, pos, negsuc, pos_part, leb_ℤ}
use x_ui_aggr.Alerts.Types.{AlertType, other, Alert}
use x_ui_aggr.Alerts.Policy.{
  Policy, second, min_consecutive_fails, fail_delay, recover_after, normalize_policy_minutes,
  max_policy_minutes, default_ack_mute_minutes, default_button_mute_mins, clamp_minutes,
}

clamp_minutes_bounds :
    (d : ℕ) (m : ℤ)
    → 0 < d
    → d ≤ max_policy_minutes
    → (0 < clamp_minutes d m)
      × (clamp_minutes d m ≤ max_policy_minutes)
      × (clamp_minutes d m ≡ min max_policy_minutes (if leb_ℤ (pos 1) m then pos_part m else d))
unfolding clamp_minutes
clamp_minutes_bounds d (pos n) h k = (ground arith, ground arith, ground arith)
clamp_minutes_bounds d (negsuc n) h k = (ground arith, ground arith, ground arith)

-- Both mute times lie between one minute and thirty days, whatever the settings hold; each is its
-- setting, or its default where the setting is not positive, cut off at thirty days.
pub normalize_policy_minutes_bounds :
    (ack mute : ℤ)
    → let (a, m) = normalize_policy_minutes ack mute in
      (0 < a)
      × (a ≤ max_policy_minutes)
      × (a
          ≡ min max_policy_minutes
              (if leb_ℤ (pos 1) ack then pos_part ack else default_ack_mute_minutes))
      × (0 < m)
      × (m ≤ max_policy_minutes)
      × (m
          ≡ min max_policy_minutes
              (if leb_ℤ (pos 1) mute then pos_part mute else default_button_mute_mins))
unfolding normalize_policy_minutes
normalize_policy_minutes_bounds ack mute =
    let a = clamp_minutes_bounds default_ack_mute_minutes ack (omega arith) (omega arith) in
    let m = clamp_minutes_bounds default_button_mute_mins mute (omega arith) (omega arith) in
    (a.0, a.1, a.2, m.0, m.1, m.2)

-- Every alert needs at least one failure to be sent and at least one ok sample to recover, and its
-- delay is the longer of the policy's and its own, where a negative time counts as none.
pub thresholds :
    (p : Policy) (a : Alert)
    → (0 < min_consecutive_fails p a.kind)
      × (0 < recover_after a)
      × (fail_delay p a ≡ max (pos_part p.offline_delay) (pos_part a.fail_after_sec * second))
unfolding min_consecutive_fails recover_after fail_delay
thresholds p a = (fails a.kind, ground arith, ground arith)
  where
    fails : (k : AlertType) → 0 < min_consecutive_fails p k
    fails (other t) = omega arith
    fails _ = ground arith
