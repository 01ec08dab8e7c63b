-- ===== src/Backup/Retention/Exact.antt =====
-- What the retention of a job deletes.
use x_ui_aggr.Prelude.{
  arith, sym, not, leb, ◌≡◌, refl, ap, ℕ, ◌-◌, ◌*◌, String, Option, none, some, List, [], ◌∷◌,
  if◌then◌else◌, Bool-cases, inl, inr,
}
use x_ui_aggr.Prelude.Int.{ℤ, pos, leb_ℤ}
use x_ui_aggr.Prelude.Results.{Result, ok, fail}
use x_ui_aggr.Backup.Collect.{noted}
use x_ui_aggr.Backup.Retention.{
  pos_part, ltb, true, false, Bool, ObjectInfo, RetentionEnv, cutoff, is_kept, delete_old,
  delete_listed, apply_retention,
}

-- Modified at the limit or before it; an object without a time is not.
abbrev pub is_expired : ℕ → Option ℕ → Bool
is_expired limit none = false
is_expired limit (some modified_at) = leb modified_at limit

is_kept-not-is_expired :
    (limit : ℕ) (object : ObjectInfo) (b : Bool)
    → is_kept limit object ≡ b
    → is_expired limit object.modified_at ≡ not b
unfolding is_kept
is_kept-not-is_expired limit object b h = by_time object.modified_at h
  where
    by_time :
        (t : Option ℕ)
        → (elim t [ none ↦ true | some t ↦ ltb limit t ]) ≡ b
        → is_expired limit t ≡ not b
    by_time none h = rw (sym h) refl
    by_time (some t) h = ground arith

-- The paths of the objects that have expired.
abbrev pub expired : ℕ → List ObjectInfo → List String
expired limit [] = []
expired limit (object ∷ objects) =
    let rest = expired limit objects in
    if is_expired limit object.modified_at then object.path ∷ rest else rest

-- The first error among the deletions.
abbrev pub first_failure : (String → Option String) → List String → Option String
first_failure delete_error [] = none
first_failure delete_error (path ∷ paths) = elim (delete_error path) [
  | none ↦ first_failure delete_error paths
  | some msg ↦ some msg
]

abbrev or_else : Option String → Option String → Option String
or_else none second = second
or_else (some msg) second = some msg

noted-or_else :
    (first answer rest : Option String)
    → or_else (noted first answer) rest
      ≡ or_else first (elim answer [ none ↦ rest | some msg ↦ some msg ])
noted-or_else none none rest = refl
noted-or_else none (some m) rest = refl
noted-or_else (some f) none rest = refl
noted-or_else (some f) (some m) rest = refl

delete_old-expired :
    (delete_error : String → Option String) (limit : ℕ) (objects : List ObjectInfo)
    (first : Option String)
    → delete_old delete_error limit objects first
      ≡ (expired limit objects, or_else first (first_failure delete_error (expired limit objects)))
unfolding delete_old
delete_old-expired delete_error limit [] none = refl
delete_old-expired delete_error limit [] (some msg) = refl
delete_old-expired delete_error limit (object ∷ objects) first =
    elim (Bool-cases (is_kept limit object)) [
      | inl kept ↦
          rw (kept, is_kept-not-is_expired limit object true kept)
            (delete_old-expired delete_error limit objects first)
      | inr old ↦
          rw
            (
              old,
              is_kept-not-is_expired limit object false old,
              delete_old-expired delete_error limit objects
                  (noted first (delete_error object.path)),
              noted-or_else first (delete_error object.path)
                  (first_failure delete_error (expired limit objects)),
            )
            refl
    ]

-- What is deleted where the objects are listed.
abbrev pub expired_listed :
    RetentionEnv → ℕ → Result (List ObjectInfo) → List String × Option String
expired_listed e limit (fail msg) = ([], some msg)
expired_listed e limit (ok objects) =
    (expired limit objects, first_failure e.delete_error (expired limit objects))

listed :
    (e : RetentionEnv) (limit : ℕ) (r : Result (List ObjectInfo))
    → delete_listed e limit r ≡ expired_listed e limit r
listed e limit (fail msg) = refl
listed e limit (ok objects) = delete_old-expired e.delete_error limit objects none

-- A job that keeps backups for a number of days tries to delete exactly the objects that were
-- modified at or before that many times 24 hours ago, and an object without a time never; one failure does not
-- keep the others, and the error it returns is the first. Without days, or without the list of the
-- objects, nothing is deleted.
pub apply_retention-exact :
    (e : RetentionEnv) (days : ℤ)
    → apply_retention e days ≡ (
        if leb_ℤ days (pos 0)
        then ([], none)
        else expired_listed e (e.now - 86400 * pos_part days) e.objects)
unfolding apply_retention cutoff
apply_retention-exact e days =
    ap (λ (x : List String × Option String). if leb_ℤ days (pos 0) then ([], none) else x)
      (listed e (e.now - 86400 * pos_part days) e.objects)
