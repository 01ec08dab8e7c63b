-- ===== src/Agentfs/Canonical.antt =====
-- Cleaned paths: their names, and that cleaning them again changes nothing.
use Prim.Native.Char.{Char, code, char}
use Prim.Native.String
use Prim.Native.String.append
use mathlib.Core.List.{append-nil}
use x_ui_aggr.Prelude.{
  neither, ◌++◌, ◌≡◌, refl, sym, ap, ◌∙◌, subst, String, true, false, List, [], ◌∷◌, ◌is◌, ◌==◌,
  All, Bool-cases, inl, inr, if_true, if_false,
}
use x_ui_aggr.Prelude.Strings.{has_prefix, contains_char, split, push_head, join}
use x_ui_aggr.Prelude.Strings.Append.{has_prefix-append}
use x_ui_aggr.Agentfs.Clean.{clean, resolve, step_back, push_name, reverse_onto, print_path}

-- A name of a directory or a file: not empty, neither `.` nor `..`, and without a slash.
pub record IsName (s : String) : Type 0 where
  pub not_empty : (s is "") ≡ false
  pub not_dot : (s is ".") ≡ false
  pub not_dots : (s is "..") ≡ false
  pub no_slash : contains_char s b'/' ≡ false

abbrev NoSlash : String → Type 0
NoSlash s = contains_char s b'/' ≡ false

push_head-NoSlash :
    (c : Char) (parts : List String)
    → (code c == b'/') ≡ false
    → All NoSlash parts
    → All NoSlash (push_head c parts)
unfolding push_head contains_char
push_head-NoSlash c [] h k = (rw h refl, tt)
push_head-NoSlash c (x ∷ parts) h k = (rw h k.0, k.1)

split-NoSlash : (s : String) → All NoSlash (split s b'/')
unfolding split contains_char
split-NoSlash String.[] = (refl, tt)
split-NoSlash (String.◌∷◌ c s) = elim (Bool-cases (code c == b'/')) [
  | inl slash ↦
      subst (All NoSlash)
        (sym (if_true (code c == b'/') ("" ∷ split s b'/') (push_head c (split s b'/')) slash))
        (refl, split-NoSlash s)
  | inr other ↦
      subst (All NoSlash)
        (sym (if_false (code c == b'/') ("" ∷ split s b'/') (push_head c (split s b'/')) other))
        (push_head-NoSlash c (split s b'/') other (split-NoSlash s))
]

step_back-IsName : (stack : List String) → All IsName stack → All IsName (step_back true stack)
unfolding step_back
step_back-IsName [] h = tt
step_back-IsName (top ∷ stack) h = rw (h.0.not_dots) h.1

push_name-IsName :
    (name : String) (stack : List String)
    → NoSlash name
    → All IsName stack
    → All IsName (push_name true name stack)
push_name-IsName name stack n h = elim (Bool-cases (name is "")) [
  | inl e ↦ rw e h
  | inr e ↦ elim (Bool-cases (name is ".")) [
    | inl d ↦ rw (e, d) h
    | inr d ↦ elim (Bool-cases (name is "..")) [
      | inl dd ↦ rw (e, d, dd) (step_back-IsName stack h)
      | inr dd ↦
          rw (e, d, dd) (record { not_empty = e; not_dot = d; not_dots = dd; no_slash = n }, h)
    ]
  ]
]

resolve-IsName :
    (names stack : List String)
    → All NoSlash names
    → All IsName stack
    → All IsName (resolve true names stack)
unfolding resolve
resolve-IsName [] stack n h = h
resolve-IsName (name ∷ names) stack n h =
    resolve-IsName names (push_name true name stack) n.1 (push_name-IsName name stack n.0 h)

reverse_onto-IsName :
    (xs ys : List String) → All IsName xs → All IsName ys → All IsName (reverse_onto xs ys)
unfolding reverse_onto
reverse_onto-IsName [] ys h k = k
reverse_onto-IsName (x ∷ xs) ys h k = reverse_onto-IsName xs (x ∷ ys) h.1 (h.0, k)

-- A cleaned path from the root: a slash and names with slashes between them.
pub record IsClean (path : String) : Type 0 where
  pub names : List String
  pub all_names : All IsName names
  pub printed : path ≡ print_path true names

pub clean-IsClean : (path : String) → has_prefix path "/" ≡ true → IsClean (clean path)
unfolding clean
clean-IsClean path h = record {
  names = reverse_onto (resolve true (split path b'/') []) [];
  all_names =
      reverse_onto-IsName (resolve true (split path b'/') []) []
        (resolve-IsName (split path b'/') [] (split-NoSlash path) tt) tt;
  printed = rw h refl;
}

abbrev pub after_slash : String → String
after_slash t = String.◌++◌ "/" t

slash_head : (t : String) → String.◌++◌ "/" t ≡ String.◌∷◌ (char 47 tt) t
slash_head t = append.cons (char 47 tt) "" t ∙ ap (λ x. String.◌∷◌ (char 47 tt) x) (append.nil t)

split-after_slash : (t : String) → split (after_slash t) b'/' ≡ "" ∷ split t b'/'
unfolding split
split-after_slash t = ap (λ x. split x b'/') (slash_head t)

split-empty : split "" b'/' ≡ "" ∷ []
unfolding split
split-empty = refl

split-push :
    (c : Char) (s : String)
    → (code c == b'/') ≡ false
    → split (String.◌∷◌ c s) b'/' ≡ push_head c (split s b'/')
unfolding split
split-push c s h = if_false (code c == b'/') ("" ∷ split s b'/') (push_head c (split s b'/')) h

split-name : (x : String) → NoSlash x → split x b'/' ≡ x ∷ []
unfolding contains_char push_head
split-name String.[] h = split-empty
split-name (String.◌∷◌ c x) h =
    let (other, rest) = neither _ _ h in split-push c x other ∙ ap (push_head c) (split-name x rest)

-- A name, a slash and a text split into the name and the parts of the text.
split-joined :
    (x t : String) → NoSlash x → split (String.◌++◌ x (after_slash t)) b'/' ≡ x ∷ split t b'/'
unfolding contains_char push_head
split-joined String.[] t h =
    ap (λ y. split y b'/') (append.nil (after_slash t)) ∙ split-after_slash t
split-joined (String.◌∷◌ c x) t h =
    let (other, rest) = neither _ _ h in
    ap (λ y. split y b'/') (append.cons c x (after_slash t))
    ∙ split-push c (String.◌++◌ x (after_slash t)) other
    ∙ ap (push_head c) (split-joined x t rest)

split-join :
    (x : String) (xs : List String) → All IsName (x ∷ xs) → split (join (x ∷ xs) "/") b'/' ≡ x ∷ xs
unfolding join
split-join x [] h = split-name x h.0.no_slash
split-join x (y ∷ xs) h =
    split-joined x (join (y ∷ xs) "/") h.0.no_slash ∙ ap (λ l. x ∷ l) (split-join y xs h.1)

resolve-names :
    (names stack : List String)
    → All IsName names
    → resolve true names stack ≡ reverse_onto names stack
unfolding resolve reverse_onto
resolve-names [] stack h = refl
resolve-names (x ∷ names) stack h =
    ap (resolve true names) (pushed x stack h.0) ∙ resolve-names names (x ∷ stack) h.1
  where
    pushed : (x : String) (stack : List String) → IsName x → push_name true x stack ≡ x ∷ stack
    pushed x stack n = rw (n.not_empty, n.not_dot, n.not_dots) refl

reverse-reverse :
    (xs ys zs : List String) → reverse_onto (reverse_onto xs ys) zs ≡ reverse_onto ys (xs ++ zs)
unfolding reverse_onto
reverse-reverse [] ys zs = refl
reverse-reverse (x ∷ xs) ys zs = reverse-reverse xs (x ∷ ys) zs

resolve-root : resolve true (split "/" b'/') [] ≡ reverse_onto [] []
unfolding resolve split reverse_onto ◌is◌
resolve-root = refl

resolve-empty : (l : List String) → resolve true ("" ∷ l) [] ≡ resolve true l []
unfolding resolve ◌is◌
resolve-empty l = refl

resolve-print_path :
    (names : List String)
    → All IsName names
    → resolve true (split (print_path true names) b'/') [] ≡ reverse_onto names []
unfolding join
resolve-print_path [] h = resolve-root
resolve-print_path (x ∷ names) h =
    ap (λ l. resolve true l []) (split-after_slash (join (x ∷ names) "/"))
    ∙ skip_empty (split (join (x ∷ names) "/") b'/')
    ∙ ap (λ l. resolve true l []) (split-join x names h)
    ∙ resolve-names (x ∷ names) [] h
  where
    skip_empty : (l : List String) → resolve true ("" ∷ l) [] ≡ resolve true l []
    skip_empty l = resolve-empty l

reverse_onto-nil : (l : List String) → reverse_onto [] (l ++ []) ≡ l
unfolding reverse_onto
reverse_onto-nil l = append-nil l

-- Cleaning a cleaned path changes nothing.
pub clean-print_path :
    (names : List String) → All IsName names → clean (print_path true names) ≡ print_path true names
unfolding clean
clean-print_path names h =
    let rooted : has_prefix (print_path true names) "/" ≡ true =
      has_prefix-append "/" (join names "/") in
    let back = resolve-print_path names h in
    let twice = reverse-reverse names [] [] in
    rw (rooted, back) (ap (print_path true) (twice ∙ reverse_onto-nil names))
