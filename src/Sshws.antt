-- ===== src/Sshws.antt =====
-- backend/internal/services/sshws/manager.go: the limit on open SSH terminal sessions.
pub mod Bounds
mod Tests
use x_ui_aggr.Prelude.{
  ℕ, zero, suc, ◌+◌, ◌-◌, Bool, true, false, Option, none, some, List, [], ◌∷◌, ◌++◌, leb, ltb,
  length, if◌then◌else◌,
}
use x_ui_aggr.Prelude.Int.{ℤ, pos, negsuc, pos_part, neg_part, leb_ℤ}

-- The manager with the `released` variable of every release function that it has given out, the
-- oldest first: a release function is named by its place in that list.
pub record Manager : Type 0 where
  pub max : ℤ
  pub active : ℕ
  pub released : List Bool

pub new_manager : ℤ → Manager
new_manager max = record {
  max = if leb_ℤ max (pos 0) then pos 1 else max;
  active = 0;
  released = [];
}

-- `none` is ErrLimitReached; otherwise the new release function's place.
pub try_acquire : Manager → Manager × Option ℕ
try_acquire m = if leb_ℤ m.max (pos m.active) then (m, none) else (
  record m { active = m.active + 1; released = m.released ++ false ∷ [] },
  some (length m.released),
)

-- `released` at a place, with what `if released { return }` does for a place that was never given.
pub was_released : List Bool → ℕ → Bool
was_released [] i = true
was_released (b ∷ bs) zero = b
was_released (b ∷ bs) (suc i) = was_released bs i

pub set_released : List Bool → ℕ → List Bool
set_released [] i = []
set_released (b ∷ bs) zero = true ∷ bs
set_released (b ∷ bs) (suc i) = b ∷ set_released bs i

-- A call of the release function with this place.
pub release : Manager → ℕ → Manager
release m i = if was_released m.released i then m else record m {
  active = if ltb 0 m.active then m.active - 1 else m.active;
  released = set_released m.released i;
}

-- The calls that sessions make, in the order in which the mutex admits them.
pub data Call : Type 0 where
  acquires : Call
  releases : ℕ → Call

pub step : Manager → Call → Manager
step m acquires = (try_acquire m).0
step m (releases i) = release m i

pub run : Manager → List Call → Manager
run m [] = m
run m (c ∷ cs) = run (step m c) cs
