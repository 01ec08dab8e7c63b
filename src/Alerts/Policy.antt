-- ===== src/Alerts/Policy.antt =====
-- The policy of the alert engine: delays, streaks and mute times (service.go).
pub mod Bounds
use x_ui_aggr.Prelude.{ℕ, ◌*◌, Bool, true, false, ltb, if◌then◌else◌}
use x_ui_aggr.Prelude.Int.{ℤ, pos, pos_part, neg_part, ltb_ℤ, leb_ℤ}
use x_ui_aggr.Alerts.Types.{AlertType, cpu, memory, disk, connection, tls, generic, other, Alert}

abbrev pub second : ℕ
second = 1_000_000_000

abbrev pub minute : ℕ
minute = 60_000_000_000

-- The thresholds of the metrics are numbers in floating point and are left out.
pub record Policy : Type 0 where
  pub offline_delay : ℤ
  pub min_consecutive_fails : ℤ

abbrev pub default_policy : Policy
default_policy = record { offline_delay = pos (5 * minute); min_consecutive_fails = pos 2 }

-- WithPolicy
unfoldable pub with_policy : Policy → Policy → Policy
with_policy p s = record {
  offline_delay = if leb_ℤ (pos 0) p.offline_delay then p.offline_delay else s.offline_delay;
  min_consecutive_fails =
      if ltb_ℤ (pos 0) p.min_consecutive_fails
      then p.min_consecutive_fails
      else s.min_consecutive_fails;
}

unfoldable pub requires_offline_delay : AlertType → Bool
requires_offline_delay generic = true
requires_offline_delay connection = true
requires_offline_delay _ = false

unfoldable pub min_consecutive_fails : Policy → AlertType → ℕ
min_consecutive_fails p (other t) = 1
min_consecutive_fails p _ =
    let fails =
      if ltb_ℤ (pos 0) p.min_consecutive_fails
      then p.min_consecutive_fails
      else default_policy.min_consecutive_fails in
    if ltb_ℤ fails (pos 1) then 1 else pos_part fails

unfoldable pub default_recover_after_ok : AlertType → ℕ
default_recover_after_ok connection = 3
default_recover_after_ok generic = 2
default_recover_after_ok tls = 2
default_recover_after_ok cpu = 6
default_recover_after_ok memory = 6
default_recover_after_ok disk = 6
default_recover_after_ok (other t) = 1

-- The two thresholds that maybeSendAlert computes before it branches.
unfoldable pub fail_delay : Policy → Alert → ℕ
fail_delay p a =
    let base = p.offline_delay in
    let custom = pos (pos_part a.fail_after_sec * second) in
    let delay =
      if ltb_ℤ (pos 0) a.fail_after_sec
      then (if ltb_ℤ base custom then custom else base)
      else base in
    if ltb_ℤ delay (pos 0) then 0 else pos_part delay

unfoldable pub recover_after : Alert → ℕ
unfolding default_recover_after_ok
recover_after a =
    let n =
      if ltb_ℤ a.recover_after_ok (pos 1)
      then default_recover_after_ok a.kind
      else pos_part a.recover_after_ok in
    if ltb n 1 then 1 else n

abbrev pub default_ack_mute_minutes : ℕ
default_ack_mute_minutes = 24 * 60

abbrev pub default_button_mute_mins : ℕ
default_button_mute_mins = 60

abbrev pub max_policy_minutes : ℕ
max_policy_minutes = 30 * 24 * 60

clamp_minutes : ℕ → ℤ → ℕ
clamp_minutes default minutes =
    let chosen = if leb_ℤ minutes (pos 0) then default else pos_part minutes in
    if ltb max_policy_minutes chosen then max_policy_minutes else chosen

unfoldable pub normalize_policy_minutes : ℤ → ℤ → ℕ × ℕ
unfolding clamp_minutes
normalize_policy_minutes ack_mute_minutes mute_minutes = (
  clamp_minutes default_ack_mute_minutes ack_mute_minutes,
  clamp_minutes default_button_mute_mins mute_minutes,
)
