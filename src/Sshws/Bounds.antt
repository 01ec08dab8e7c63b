-- ===== src/Sshws/Bounds.antt =====
-- The session counter against the release functions that are still to be called.
use x_ui_aggr.Prelude.{
  ◌↔◌, ℕ, zero, suc, ◌+◌, ◌≡◌, refl, Bool, true, false, none, some, List, [], ◌∷◌, ◌++◌, arith,
  length,
}
use x_ui_aggr.Prelude.Int.{ℤ, pos, negsuc, ◌≤ℤ◌}
use x_ui_aggr.Sshws.{
  Manager, Call, acquires, releases, new_manager, try_acquire, release, was_released, set_released,
  step, run,
}

-- How many release functions have not been called.
abbrev pub open_sessions : List Bool → ℕ
open_sessions [] = 0
open_sessions (true ∷ bs) = open_sessions bs
open_sessions (false ∷ bs) = suc (open_sessions bs)

open_sessions-append : (bs : List Bool) → open_sessions (bs ++ false ∷ []) ≡ open_sessions bs + 1
open_sessions-append [] = omega arith
open_sessions-append (true ∷ bs) = omega (arith, open_sessions-append bs)
open_sessions-append (false ∷ bs) = omega (arith, open_sessions-append bs)

open_sessions-set :
    (bs : List Bool) (i : ℕ)
    → was_released bs i ≡ false
    → open_sessions bs ≡ open_sessions (set_released bs i) + 1
unfolding was_released set_released
open_sessions-set [] i h = ground arith
open_sessions-set (true ∷ bs) zero h = ground arith
open_sessions-set (false ∷ bs) zero h = omega arith
open_sessions-set (true ∷ bs) (suc i) h = omega (arith, open_sessions-set bs i h)
open_sessions-set (false ∷ bs) (suc i) h = omega (arith, open_sessions-set bs i h)

was_released-set : (bs : List Bool) (i : ℕ) → was_released (set_released bs i) i ≡ true
unfolding was_released set_released
was_released-set [] i = refl
was_released-set (b ∷ bs) zero = refl
was_released-set (b ∷ bs) (suc i) = was_released-set bs i

-- The counter is the number of open sessions and lies within the limit.
pub record IsValid (m : Manager) : Type 0 where
  pub counted : m.active ≡ open_sessions m.released
  pub within : pos m.active ≤ℤ m.max

new_manager-IsValid : (max : ℤ) → IsValid (new_manager max)
unfolding new_manager
new_manager-IsValid (pos n) = ground arith
new_manager-IsValid (negsuc n) = ground arith

step-IsValid : (m : Manager) (c : Call) → IsValid m → IsValid (step m c)
unfolding step try_acquire release
step-IsValid m acquires v = ground (arith, open_sessions-append m.released)
step-IsValid m (releases i) v = ground (arith, open_sessions-set m.released i)

run-IsValid : (m : Manager) (cs : List Call) → IsValid m → IsValid (run m cs)
unfolding run
run-IsValid m [] v = v
run-IsValid m (c ∷ cs) v = run-IsValid (step m c) cs (step-IsValid m c v)

max-step : (m : Manager) (c : Call) → (step m c).max ≡ m.max
unfolding step try_acquire release
max-step m acquires = ground arith
max-step m (releases i) = ground arith

max-run : (m : Manager) (cs : List Call) → (run m cs).max ≡ m.max
unfolding run
max-run m [] = refl
max-run m (c ∷ cs) = ground (arith, max-run (step m c) cs, max-step m c)

-- After any sequence of acquisitions and releases, in any order and with any repetition, the
-- counter of a new manager is the number of sessions that are open, and it is at most the limit.
pub active_bounds :
    (max : ℤ) (cs : List Call)
    → ((run (new_manager max) cs).active ≡ open_sessions (run (new_manager max) cs).released)
      × (pos (run (new_manager max) cs).active ≤ℤ (new_manager max).max)
active_bounds max cs =
    let v = run-IsValid (new_manager max) cs (new_manager-IsValid max) in
    (v.counted, rw (max-run (new_manager max) cs) at v.within)

-- In a state whose counter is right, a session is refused exactly when as many sessions are open
-- as the limit allows.
pub refused_iff_full :
    (m : Manager)
    → IsValid m
    → ((try_acquire m).1 ≡ none) ↔ (m.max ≤ℤ pos (open_sessions m.released))
unfolding try_acquire
refused_iff_full m v = (λ h. ground arith, λ h. ground arith)

-- Calling a release function a second time changes nothing.
pub release_twice : (m : Manager) (i : ℕ) → release (release m i) i ≡ release m i
unfolding release
release_twice m i = ground (arith, was_released-set m.released i)

was_released-append : (bs : List Bool) → was_released (bs ++ false ∷ []) (length bs) ≡ false
unfolding was_released
was_released-append [] = refl
was_released-append (b ∷ bs) = was_released-append bs

-- Where a session is admitted, its release function puts the counter back to what it was.
pub release-try_acquire :
    (m : Manager) (i : ℕ)
    → (try_acquire m).1 ≡ some i
    → (release (try_acquire m).0 i).active ≡ m.active
unfolding try_acquire release
release-try_acquire m i h = ground (arith, was_released-append m.released)
