-- ===== src/Agentfs/Allowed.antt =====
-- The paths that pass.
use Prim.Native.String
use Prim.Native.String.append
use x_ui_aggr.Prelude.{
  not-false, neither, or_right, ◌≡◌, refl, sym, ap, ◌∙◌, subst, String, true, false, not, ◌||◌,
  List, [], ◌∷◌, ◌is◌, str_eq_iff, str_eq_refl, All, any, Bool-cases, inl, inr,
}
use x_ui_aggr.Prelude.Strings.{trim_space, has_prefix, contains_char, split, join}
use x_ui_aggr.Prelude.Results.{ok-injective, ok, refuse_if-ok, and_then-ok}
use x_ui_aggr.Agentfs.Clean.{clean, print_path}
use x_ui_aggr.Prelude.Strings.Append.{append_assoc, has_prefix-append}
use x_ui_aggr.Agentfs.Canonical.{IsName, IsClean, after_slash, clean-IsClean, clean-print_path}
use x_ui_aggr.Agentfs.{normalize_path, is_blocked, is_under, blocked_prefixes, ensure_allowed}

-- The first name of the path, if there is one, is not that of a protected tree.
abbrev pub NotReserved : List String → Type 0
NotReserved [] = Unit
NotReserved (x ∷ names) = ((x is "proc") ≡ false) × ((x is "sys") ≡ false) × ((x is "dev") ≡ false)

-- What a path that passes is: canonical, and outside /proc, /sys and /dev.
pub record IsAllowed (path : String) : Type 0 where
  pub names : List String
  pub all_names : All IsName names
  pub printed : path ≡ print_path true names
  pub canonical : clean path ≡ path
  pub not_reserved : NotReserved names

-- A path whose first name is `k` is under it.
under_first :
    (k : String) (names : List String)
    → is_under (print_path true (k ∷ names)) (String.◌++◌ "/" k) ≡ true
unfolding join
under_first k [] = rw (str_eq_refl (String.◌++◌ "/" k)) refl
under_first k (y ∷ names) =
    let tail = join (y ∷ names) "/" in
    let whole : String.◌++◌ "/" (String.◌++◌ k (after_slash tail))
        ≡ String.◌++◌ (String.◌++◌ (String.◌++◌ "/" k) "/") tail =
      sym (append_assoc "/" k (after_slash tail))
      ∙ sym (append_assoc (String.◌++◌ "/" k) "/" tail) in
    subst (λ p. is_under p (String.◌++◌ "/" k) ≡ true) (sym whole)
      (or_right _ _ (has_prefix-append (String.◌++◌ (String.◌++◌ "/" k) "/") tail))

not_first :
    (k x : String) (names : List String)
    → is_under (print_path true (x ∷ names)) (String.◌++◌ "/" k) ≡ false
    → (x is k) ≡ false
not_first k x names h = elim (Bool-cases (x is k)) [
  | inl same ↦
      let shown : is_under (print_path true (x ∷ names)) (String.◌++◌ "/" k) ≡ true =
        subst (λ y. is_under (print_path true (y ∷ names)) (String.◌++◌ "/" k) ≡ true)
          (sym ((str_eq_iff x k).0 same)) (under_first k names) in
      absurd (cc (h, shown))
  | inr other ↦ other
]

unblocked-NotReserved :
    (names : List String)
    → any (is_under (print_path true names)) blocked_prefixes ≡ false
    → NotReserved names
unblocked-NotReserved [] h = tt
unblocked-NotReserved (x ∷ names) h =
    let (p, rest) = neither _ _ h in
    let (s, rest') = neither _ _ rest in
    let (d, _) = neither _ _ rest' in
    (not_first "proc" x names p, not_first "sys" x names s, not_first "dev" x names d)

normalize_path-IsClean : (raw path : String) → normalize_path raw ≡ ok path → IsClean path
unfolding normalize_path
normalize_path-IsClean raw path h =
    let value = trim_space raw in
    let (_, h1) = refuse_if-ok (value is "") "invalid_path" _ h in
    let (_, h2) = refuse_if-ok (contains_char value 0) "invalid_path" _ h1 in
    let (_, h3) = refuse_if-ok (contains_char value b'\\') "invalid_path" _ h2 in
    let (rooted, h4) = refuse_if-ok (not (has_prefix value "/")) "invalid_path" _ h3 in
    let (_, h5) =
      refuse_if-ok (any (λ part. part is "..") (split value b'/')) "invalid_path" _ h4 in
    let (_, h6) = refuse_if-ok (clean value is "." || clean value is "") "invalid_path" _ h5 in
    let (_, h7) = refuse_if-ok (not (has_prefix (clean value) "/")) "invalid_path" _ h6 in
    subst IsClean (ok-injective h7) (clean-IsClean value (not-false _ rooted))

-- A path that EnsureAllowed gives consists of a slash and of names with slashes between them, none
-- of them empty, `.` or `..`; cleaning it changes nothing; and its first name is not that of one of
-- the trees /proc, /sys and /dev, however the path was written.
pub ensure_allowed-IsAllowed : (raw path : String) → ensure_allowed raw ≡ ok path → IsAllowed path
unfolding ensure_allowed is_blocked
ensure_allowed-IsAllowed raw path h =
    let (p, normal, h1) = and_then-ok (normalize_path raw) _ h in
    let (free, h2) = refuse_if-ok (is_blocked p) "forbidden" (ok p) h1 in
    let c = normalize_path-IsClean raw p normal in
    let canonical : clean p ≡ p =
      ap clean c.printed ∙ clean-print_path c.names c.all_names ∙ sym c.printed in
    let outside : any (is_under (print_path true c.names)) blocked_prefixes ≡ false =
      subst (λ q. any (is_under q) blocked_prefixes ≡ false) (canonical ∙ c.printed) free in
    subst IsAllowed (ok-injective h2) (record {
      names = c.names;
      all_names = c.all_names;
      printed = c.printed;
      canonical = canonical;
      not_reserved = unblocked-NotReserved c.names outside;
    })
