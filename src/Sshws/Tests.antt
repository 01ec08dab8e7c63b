-- ===== src/Sshws/Tests.antt =====
-- The theorems on the session limit at concrete inputs.
use x_ui_aggr.Prelude.{◌≡◌, refl, ◌↔◌, none, List, [], ◌∷◌, false, true, arith}
use x_ui_aggr.Prelude.Int.{pos, ◌≤ℤ◌}
use x_ui_aggr.Sshws.{
  Manager, Call, acquires, releases, new_manager, try_acquire, release, run, step, was_released,
  set_released,
}
use x_ui_aggr.Sshws.Bounds.{
  open_sessions, active_bounds, refused_iff_full, release_twice, release-try_acquire,
}

abbrev calls : List Call
calls = acquires ∷ acquires ∷ acquires ∷ releases 0 ∷ releases 0 ∷ []

-- One of the two admitted sessions was closed, twice.
run_calls : (run (new_manager (pos 2)) calls).active ≡ 1
unfolding run new_manager step try_acquire release was_released set_released
run_calls = refl

active_bounds_example :
    ((run (new_manager (pos 2)) calls).active
      ≡ open_sessions (run (new_manager (pos 2)) calls).released)
    × (pos (run (new_manager (pos 2)) calls).active ≤ℤ (new_manager (pos 2)).max)
active_bounds_example = active_bounds (pos 2) calls

abbrev full : Manager
full = record { max = pos 2; active = 2; released = false ∷ true ∷ false ∷ [] }

refused_iff_full_example :
    ((try_acquire full).1 ≡ none) ↔ (full.max ≤ℤ pos (open_sessions full.released))
refused_iff_full_example = refused_iff_full full (record { counted = refl; within = omega arith })

release_twice_example : release (release full 2) 2 ≡ release full 2
release_twice_example = release_twice full 2

abbrev half : Manager
half = record { max = pos 2; active = 1; released = true ∷ false ∷ [] }

release-try_acquire_example : (release (try_acquire half).0 2).active ≡ 1
unfolding try_acquire
release-try_acquire_example = release-try_acquire half 2 refl
