-- ===== src/Backup/Job/Valid.antt =====
-- What an accepted job satisfies, and that validating it again changes nothing.
use x_ui_aggr.Prelude.{
  not-false, ℕ, ◌≡◌, ◌≤◌, refl, sym, ap, ◌∙◌, subst, String, Bool, true, false, not, Option, none,
  some, ◌is◌, ◌==◌, Bool-cases, inl, inr, arith,
}
use x_ui_aggr.Prelude.Int.{ℤ, pos, negsuc, pos_part, ltb_ℤ, leb_ℤ}
use x_ui_aggr.Prelude.Strings.{trim_space}
use x_ui_aggr.Prelude.Strings.Trim.{trim_space_idem}
use x_ui_aggr.Prelude.Results.{ok, refuse_if-ok}
use x_ui_aggr.Backup.Types.{normalize_timezone}
use x_ui_aggr.Backup.Job.{
  JobInput, filled, checked, validate_job_input, or_default, or_number, is_bad_level,
}

-- A number from 1 to the bound.
abbrev pub IsUpTo : ℕ → ℤ → Type 0
IsUpTo bound n = (1 ≤ pos_part n) × (pos_part n ≤ bound)

abbrev pub IsLevel : Option ℤ → Type 0
IsLevel none = Unit
IsLevel (some n) = IsUpTo 9 n

pub record IsValid (cron_parses : String → Bool) (i : JobInput) : Type 0 where
  pub named : (i.name is "") ≡ false
  pub scheduled : cron_parses i.cron_expression ≡ true
  pub retained : IsUpTo 3650 i.retention_days
  pub stored : (i.storage_target_id == 0) ≡ false
  pub uploaded : IsUpTo 8 i.upload_concurrency
  pub level : IsLevel i.compression_level

or_number-IsUpTo :
    (n : ℤ) (d bound : ℕ)
    → 1 ≤ d
    → ltb_ℤ (pos bound) (or_number n (pos d)) ≡ false
    → IsUpTo bound (or_number n (pos d))
or_number-IsUpTo (pos n) d bound h k = ground arith
or_number-IsUpTo (negsuc n) d bound h k = ground arith

is_bad_level-IsLevel : (o : Option ℤ) → is_bad_level o ≡ false → IsLevel o
is_bad_level-IsLevel none h = tt
is_bad_level-IsLevel (some (pos n)) h = ground arith
is_bad_level-IsLevel (some (negsuc n)) h = absurd (ground arith)

or_number_idem :
    (n : ℤ) (d : ℕ) → 1 ≤ d → or_number (or_number n (pos d)) (pos d) ≡ or_number n (pos d)
or_number_idem n d h = elim (Bool-cases (leb_ℤ n (pos 0))) [
  | inl low ↦ rw low (or_number-pos d h)
  | inr high ↦ rw (high, high) refl
]
  where
    or_number-pos : (d : ℕ) → 1 ≤ d → or_number (pos d) (pos d) ≡ pos d
    or_number-pos d h = elim (Bool-cases (leb_ℤ (pos d) (pos 0))) [
      | inl low ↦ rw low refl
      | inr high ↦ rw high refl
    ]

or_default_idem :
    (s d : String)
    → trim_space d ≡ d
    → or_default (trim_space (or_default (trim_space s) d)) d ≡ or_default (trim_space s) d
or_default_idem s d h = elim (Bool-cases (trim_space s is "")) [
  | inl blank ↦ rw (blank, h) (same d)
  | inr text ↦ rw (text, trim_space_idem s, text) refl
]
  where
    same : (d : String) → or_default d d ≡ d
    same d = elim (Bool-cases (d is "")) [ inl e ↦ rw e refl | inr e ↦ rw e refl ]

utc : (load : String → Bool) → normalize_timezone load "UTC" ≡ "UTC"
unfolding normalize_timezone trim_space ◌is◌
utc load = elim (Bool-cases (load "UTC")) [ inl h ↦ rw h refl | inr h ↦ rw h refl ]

cron_trims : trim_space "0 3 * * *" ≡ "0 3 * * *"
unfolding trim_space ◌is◌
cron_trims = refl

normalize_timezone_idem :
    (load : String → Bool) (s : String)
    → normalize_timezone load (normalize_timezone load s) ≡ normalize_timezone load s
unfolding normalize_timezone
normalize_timezone_idem load s = elim (Bool-cases (trim_space s is "")) [
  | inl blank ↦ rw blank (utc load)
  | inr text ↦ elim (Bool-cases (load (trim_space s))) [
    | inl known ↦ rw (text, known, trim_space_idem s, text, known) refl
    | inr unknown ↦ rw (text, unknown) (utc load)
  ]
]

filled_idem :
    (load : String → Bool) (cron : String → Bool) (i : JobInput)
    → filled load cron (filled load cron i) ≡ filled load cron i
unfolding filled
filled_idem load cron i =
    rw
      (
        trim_space_idem i.name,
        trim_space_idem i.description,
        normalize_timezone_idem load i.timezone,
        or_default_idem i.cron_expression "0 3 * * *" cron_trims,
        or_number_idem i.retention_days 14 (omega arith),
        or_number_idem i.upload_concurrency 2 (omega arith),
      )
      refl

checked-IsValid :
    (load : String → Bool) (cron : String → Bool) (i : JobInput) {r : JobInput}
    → checked load cron (filled load cron i) ≡ ok r
    → IsValid cron (filled load cron i) × (filled load cron i ≡ r)
unfolding checked filled
checked-IsValid load cron i h =
    let f = filled load cron i in
    let (named, h1) = refuse_if-ok (f.name is "") "name is required" _ h in
    let (scheduled, h2) =
      refuse_if-ok (not (cron f.cron_expression)) "invalid cron expression" _ h1 in
    let (short, h3) =
      refuse_if-ok (ltb_ℤ (pos 3650) f.retention_days) "retention_days is too large" _ h2 in
    let (stored, h4) =
      refuse_if-ok (f.storage_target_id == 0) "storage_target_id is required" _ h3 in
    let (few, h5) =
      refuse_if-ok (ltb_ℤ (pos 8) f.upload_concurrency) "upload_concurrency must be <= 8" _ h4 in
    let (level, h6) =
      refuse_if-ok (is_bad_level f.compression_level) "compression_level must be between 1 and 9"
        (ok f) h5 in
    (
      record {
        named = named;
        scheduled = not-false _ scheduled;
        retained = or_number-IsUpTo i.retention_days 14 3650 (omega arith) short;
        stored = stored;
        uploaded = or_number-IsUpTo i.upload_concurrency 2 8 (omega arith) few;
        level = is_bad_level-IsLevel i.compression_level level;
      },
      cc,
    )

-- An accepted job has a name, a schedule that parses, a storage target, between 1 and 3650 days of
-- retention, between 1 and 8 uploads at once and a compression level between 1 and 9 or none; and
-- validating it again accepts it as it is.
pub validate_job_input-IsValid :
    (load_location cron_parses : String → Bool) (input result : JobInput)
    → validate_job_input load_location cron_parses input ≡ ok result
    → IsValid cron_parses result × (validate_job_input load_location cron_parses result ≡ ok result)
unfolding validate_job_input
validate_job_input-IsValid load cron input result h =
    let (valid, same) = checked-IsValid load cron input h in
    (
      subst (IsValid cron) same valid,
      subst (λ r. checked load cron (filled load cron r) ≡ ok r) same
          (ap (checked load cron) (filled_idem load cron input) ∙ h ∙ ap ok (sym same)),
    )
