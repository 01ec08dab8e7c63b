-- ===== src/Backup/Retention.antt =====
-- applyRetention of backend/internal/services/backup/runner.go. Times are seconds; the lines of the
-- log are left out.
pub mod Exact
use x_ui_aggr.Prelude.{
  ℕ, ◌-◌, ◌*◌, String, Bool, true, false, Option, none, some, List, [], ◌∷◌, ◌++◌, ltb,
  if◌then◌else◌,
}
use x_ui_aggr.Prelude.Int.{ℤ, pos, pos_part, leb_ℤ}
use x_ui_aggr.Prelude.Results.{Result, ok, fail}
use x_ui_aggr.Backup.Collect.{noted}

pub record ObjectInfo : Type 0 where
  pub path : String
  pub size : ℕ
  pub modified_at : Option ℕ

pub record RetentionEnv : Type 0 where
  pub now : ℕ
  pub objects : Result (List ObjectInfo)
  -- The answer of the uploader to the deletion of a path.
  pub delete_error : String → Option String

-- time.Now().UTC().AddDate(0, 0, -days): in UTC every day has as many seconds.
unfoldable pub cutoff : ℕ → ℤ → ℕ
cutoff now days = now - 86400 * pos_part days

unfoldable pub is_kept : ℕ → ObjectInfo → Bool
is_kept limit object = elim object.modified_at [ none ↦ true | some t ↦ ltb limit t ]

-- The paths whose deletion is tried, in their order, and the first error.
unfoldable pub delete_old :
    (String → Option String) → ℕ → List ObjectInfo → Option String → List String × Option String
delete_old delete_error limit [] first = ([], first)
delete_old delete_error limit (object ∷ objects) first =
    let kept = is_kept limit object in
    let rest =
      delete_old delete_error limit objects
        (if kept then first else noted first (delete_error object.path)) in
    if kept then rest else (object.path ∷ rest.0, rest.1)

abbrev pub delete_listed : RetentionEnv → ℕ → Result (List ObjectInfo) → List String × Option String
delete_listed e limit (fail msg) = ([], some msg)
delete_listed e limit (ok objects) = delete_old e.delete_error limit objects none

unfoldable pub apply_retention : RetentionEnv → ℤ → List String × Option String
apply_retention e retention_days =
    if leb_ℤ retention_days (pos 0)
    then ([], none)
    else delete_listed e (cutoff e.now retention_days) e.objects
