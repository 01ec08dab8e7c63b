-- ===== src/Backup/Source/Path.antt =====
-- What an accepted path satisfies.
use Prim.Native.Char.{code}
use Prim.Native.String
use x_ui_aggr.Backup.Source
use x_ui_aggr.Prelude.{
  not-false, ℕ, ◌≡◌, refl, ap, ◌∙◌, subst, String, Bool, true, false, ◌&&◌, not, ◌is◌, ◌==◌, any,
  arith, if_false, if◌then◌else◌,
}
use x_ui_aggr.Prelude.Strings.{trim_space, split}
use x_ui_aggr.Prelude.Strings.Trim.{trim_space_idem}
use x_ui_aggr.Prelude.Results.{ok-injective, ok, refuse_if-ok, and_then-ok}

-- A path that is safe to hand to a shell and to tar: it begins with a slash, all of its characters
-- are of the allowed class, and no part of it is `..`.
pub record IsSafePath (path : String) : Type 0 where
  pub allowed : Source.allowed_source_path path ≡ true
  pub no_dots : any (λ part. part is "..") (split path b'/') ≡ false

both : (a b : Bool) → (a && b) ≡ true → (a ≡ true) × (b ≡ true)
both true b h = (refl, h)
both false b h = absurd cc

not_backslash : (n : ℕ) → Source.is_path_char n ≡ true → (n == b'\\') ≡ false
not_backslash n h = ground arith

-- A path of allowed characters has no backslash to replace.
with_slashes-all_chars :
    (s : String) → Source.all_chars Source.is_path_char s ≡ true → Source.with_slashes s ≡ s
unfolding Source.with_slashes Source.all_chars
with_slashes-all_chars String.[] h = refl
with_slashes-all_chars (String.◌∷◌ c s) h =
    let (first, rest) = both _ _ h in
    if_false (code c == b'\\') (String.◌++◌ "/" (Source.with_slashes s))
      (String.◌∷◌ c (Source.with_slashes s)) (not_backslash (code c) first)
    ∙ ap (λ r. String.◌∷◌ c r) (with_slashes-all_chars s rest)

slash_is_path_char : (n : ℕ) → (n == 47) ≡ true → Source.is_path_char n ≡ true
slash_is_path_char n h = ground arith

allowed-all_chars :
    (s : String)
    → Source.allowed_source_path s ≡ true
    → Source.all_chars Source.is_path_char s ≡ true
unfolding Source.matches_head Source.all_chars
allowed-all_chars String.[] h = refl
allowed-all_chars (String.◌∷◌ c String.[]) h = absurd cc
allowed-all_chars (String.◌∷◌ c (String.◌∷◌ d s)) h =
    let (first, rest) = both _ _ h in rw (slash_is_path_char (code c) first) rest

pub check_path-IsSafePath :
    (is_directory : Bool) (cfg : Source.PathSourceConfig) {r : Source.SourceConfig}
    → Source.check_path is_directory cfg ≡ ok r
    → (c : Source.PathSourceConfig) × (Source.path_source c ≡ r)
      × IsSafePath c.path
      × (c.archive ≡ (if is_directory then true else cfg.archive))
unfolding Source.check_path Source.validate_unix_path
check_path-IsSafePath is_directory cfg {r} h =
    let p = trim_space cfg.path in
    let value = trim_space p in
    let (_, valid, same) = and_then-ok (Source.validate_unix_path p) _ h in
    let (_, h1) = refuse_if-ok (value is "") "path is required" _ valid in
    let (allowed, h2) =
      refuse_if-ok (not (Source.allowed_source_path value)) "path contains unsupported characters" _
        h1 in
    let (dots, _) =
      refuse_if-ok (any (λ part. part is "..") (split (Source.with_slashes value) b'/'))
        "path traversal is not allowed" _ h2 in
    let good : Source.allowed_source_path p ≡ true =
      subst (λ x. Source.allowed_source_path x ≡ true) (trim_space_idem cfg.path)
        (not-false _ allowed) in
    let plain : any (λ part. part is "..") (split p b'/') ≡ false =
      rw (trim_space_idem cfg.path, with_slashes-all_chars p (allowed-all_chars p good)) at dots in
    (_, ok-injective same, record { allowed = good; no_dots = plain }, refl)
