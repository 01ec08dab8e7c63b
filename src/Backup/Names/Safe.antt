-- ===== src/Backup/Names/Safe.antt =====
-- What the names of artifacts do not contain.
use Prim.Native.Char.{Char, char, code}
use Prim.Native.String
use Prim.Native.String.append
use x_ui_aggr.Prelude.{
  Bool, ◌⊎◌, ◌||◌, and_false, neither, ℕ, ◌≡◌, refl, sym, ap, ◌∙◌, String, true, false, ◌&&◌, ◌is◌,
  ◌==◌, ==_iff, if◌then◌else◌, Bool-cases, inl, inr,
}
use x_ui_aggr.Prelude.Strings.{contains_char}
use x_ui_aggr.Backup.Names.{is_replaced, lowered, replaced, make_artifact_name}

true≢false : true ≡ false → ⊥
true≢false h = cc

-- A character that stays is not the one that is looked for, and the dash neither.
stays : (n k : ℕ) → is_replaced k ≡ true → is_replaced n ≡ false → (n == k) ≡ false
unfolding is_replaced
stays n k hk hn = elim (Bool-cases (n == k)) [
  | inr h ↦ h
  | inl h ↦ absurd (true≢false (sym hk ∙ ap is_replaced (sym ((==_iff n k).0 h)) ∙ hn))
]

dash_kept : is_replaced 45 ≡ false
unfolding is_replaced
dash_kept = refl

contains_char-append :
    (s t : String) (k : ℕ)
    → contains_char s k ≡ false
    → contains_char t k ≡ false
    → contains_char (String.◌++◌ s t) k ≡ false
unfolding contains_char
contains_char-append String.[] t k hs ht = ap (λ x. contains_char x k) (append.nil t) ∙ ht
contains_char-append (String.◌∷◌ c s) t k hs ht =
    let (h1, h2) = neither (code c == k) (contains_char s k) hs in
    ap (λ x. contains_char x k) (append.cons c s t) ∙ rw (h1, contains_char-append s t k h2 ht) refl

contains_char-cons :
    (c : Char) (s : String) (k : ℕ)
    → (code c == k) ≡ false
    → contains_char s k ≡ false
    → contains_char (String.◌∷◌ c s) k ≡ false
unfolding contains_char
contains_char-cons c s k h hs = rw (h, hs) refl

dash :
    (s : String) (k : ℕ)
    → is_replaced k ≡ true
    → contains_char s k ≡ false
    → contains_char (String.◌++◌ "-" s) k ≡ false
unfolding contains_char
dash s k hk hs = contains_char-append "-" s k (rw (stays 45 k hk dash_kept) refl) hs

replaced-contains_char :
    (s : String) (k : ℕ) → is_replaced k ≡ true → contains_char (replaced s) k ≡ false
unfolding replaced contains_char
replaced-contains_char String.[] k h = refl
replaced-contains_char (String.◌∷◌ c String.[]) k h = elim (Bool-cases (is_replaced (code c))) [
  | inl y ↦ rw (y, stays 45 k h dash_kept) refl
  | inr n ↦ rw (n, stays (code c) k h n) refl
]
replaced-contains_char (String.◌∷◌ c (String.◌∷◌ d s)) k h =
    let one = replaced-contains_char (String.◌∷◌ d s) k h in
    let pair = replaced-contains_char s k h in
    elim (Bool-cases (is_replaced (code c))) [
      | inl y ↦ rw y (dash (replaced (String.◌∷◌ d s)) k h one)
      | inr n ↦ elim (Bool-cases (code c == b'.' && code d == b'.')) [
        | inl y2 ↦ rw (n, y2) (dash (replaced s) k h pair)
        | inr n2 ↦ rw (n, n2) (contains_char-cons c _ k (stays (code c) k h n) one)
      ]
    ]

abbrev pub starts_dot : String → Bool
starts_dot String.[] = false
starts_dot (String.◌∷◌ c s) = code c == b'.'

-- Two dots in a row.
unfoldable pub has_dots : String → Bool
has_dots String.[] = false
has_dots (String.◌∷◌ c s) = (code c == b'.' && starts_dot s) || has_dots s

starts_dot-append :
    (s t : String)
    → starts_dot t ≡ false
    → starts_dot s ≡ false
    → starts_dot (String.◌++◌ s t) ≡ false
starts_dot-append String.[] t ht hs = ap starts_dot (append.nil t) ∙ ht
starts_dot-append (String.◌∷◌ c s) t ht hs = ap starts_dot (append.cons c s t) ∙ hs

has_dots-cons :
    (c : Char) (s : String)
    → (code c == b'.' && starts_dot s) ≡ false
    → has_dots s ≡ false
    → has_dots (String.◌∷◌ c s) ≡ false
unfolding has_dots
has_dots-cons c s h hs = rw (h, hs) refl

-- Only a dot at the end of the first text can meet the second.
pair-append :
    (c : Char) (s t : String)
    → starts_dot t ≡ false
    → (code c == b'.' && starts_dot s) ≡ false
    → (code c == b'.' && starts_dot (String.◌++◌ s t)) ≡ false
pair-append c s t ht h = elim (Bool-cases (code c == b'.')) [
  | inr other ↦ rw other refl
  | inl dot ↦ rw dot (starts_dot-append s t ht (rw dot at h))
]

has_dots-append :
    (s t : String)
    → starts_dot t ≡ false
    → has_dots s ≡ false
    → has_dots t ≡ false
    → has_dots (String.◌++◌ s t) ≡ false
unfolding has_dots
has_dots-append String.[] t first hs ht = ap has_dots (append.nil t) ∙ ht
has_dots-append (String.◌∷◌ c s) t first hs ht =
    let (pair, rest) = neither (code c == b'.' && starts_dot s) (has_dots s) hs in
    ap has_dots (append.cons c s t)
    ∙ has_dots-cons c (String.◌++◌ s t) (pair-append c s t first pair)
        (has_dots-append s t first rest ht)

dash-starts_dot : (s : String) → starts_dot (String.◌++◌ "-" s) ≡ false
dash-starts_dot s = ap starts_dot (append.cons (char 45 tt) "" s)

dash-has_dots : (s : String) → has_dots s ≡ false → has_dots (String.◌++◌ "-" s) ≡ false
unfolding has_dots
dash-has_dots s h =
    ap has_dots (append.cons (char 45 tt) "" s ∙ ap (λ x. String.◌∷◌ (char 45 tt) x) (append.nil s))
    ∙ h

-- A text begins with a dot after the replacement only if it did before.
replaced-starts_dot :
    (c : Char) (s : String)
    → (code c == b'.') ≡ false
    → starts_dot (replaced (String.◌∷◌ c s)) ≡ false
unfolding replaced
replaced-starts_dot c String.[] h = elim (Bool-cases (is_replaced (code c))) [
  | inl y ↦ rw y refl
  | inr n ↦ rw n h
]
replaced-starts_dot c (String.◌∷◌ d s) h = elim (Bool-cases (is_replaced (code c))) [
  | inl y ↦ rw y (dash-starts_dot (replaced (String.◌∷◌ d s)))
  | inr n ↦ rw (n, h) h
]

replaced-has_dots : (s : String) → has_dots (replaced s) ≡ false
unfolding replaced has_dots
replaced-has_dots String.[] = refl
replaced-has_dots (String.◌∷◌ c String.[]) = elim (Bool-cases (is_replaced (code c))) [
  | inl y ↦ rw y refl
  | inr n ↦ rw n (has_dots-cons c "" (and_false (code c == b'.')) refl)
]
replaced-has_dots (String.◌∷◌ c (String.◌∷◌ d s)) =
    let one = replaced-has_dots (String.◌∷◌ d s) in
    let pair = replaced-has_dots s in
    elim (Bool-cases (is_replaced (code c))) [
      | inl y ↦ rw y (dash-has_dots (replaced (String.◌∷◌ d s)) one)
      | inr n ↦ elim (Bool-cases (code c == b'.' && code d == b'.')) [
        | inl y2 ↦ rw (n, y2) (dash-has_dots (replaced s) pair)
        | inr n2 ↦
            rw (n, n2)
              (has_dots-cons c (replaced (String.◌∷◌ d s))
                (no_pair (Bool-cases (code c == b'.')) n2) one)
      ]
    ]
  where
    no_pair :
        ((code c == b'.') ≡ true) ⊎ ((code c == b'.') ≡ false)
        → (code c == b'.' && code d == b'.') ≡ false
        → (code c == b'.' && starts_dot (replaced (String.◌∷◌ d s))) ≡ false
    no_pair (inr other) h = rw other refl
    no_pair (inl dot) h = rw dot (replaced-starts_dot d s (rw dot at h))

-- No slash, backslash, colon or space, and no two dots in a row.
pub record IsFlat (name : String) : Type 0 where
  pub slash : contains_char name b'/' ≡ false
  pub backslash : contains_char name b'\\' ≡ false
  pub colon : contains_char name b':' ≡ false
  pub space : contains_char name b' ' ≡ false
  pub dots : has_dots name ≡ false

is_one_of_four :
    (is_replaced b'/' ≡ true)
    × (is_replaced b'\\' ≡ true)
    × (is_replaced b':' ≡ true)
    × (is_replaced b' ' ≡ true)
unfolding is_replaced
is_one_of_four = (refl, refl, refl, refl)

make_artifact_name-contains_char :
    (base suffix : String) (k : ℕ)
    → is_replaced k ≡ true
    → contains_char suffix k ≡ false
    → contains_char (make_artifact_name base suffix) k ≡ false
unfolding make_artifact_name
make_artifact_name-contains_char base suffix k hk hs =
    let name = replaced (if lowered base is "" then "artifact" else lowered base) in
    let clean =
      replaced-contains_char (if lowered base is "" then "artifact" else lowered base) k hk in
    elim (Bool-cases (suffix is "")) [
      | inl y ↦ rw y clean
      | inr n ↦ rw n (contains_char-append name _ k clean (dash suffix k hk hs))
    ]

make_artifact_name-has_dots :
    (base suffix : String)
    → has_dots suffix ≡ false
    → has_dots (make_artifact_name base suffix) ≡ false
unfolding make_artifact_name
make_artifact_name-has_dots base suffix hs =
    let base' = if lowered base is "" then "artifact" else lowered base in
    elim (Bool-cases (suffix is "")) [
      | inl y ↦ rw y (replaced-has_dots base')
      | inr n ↦ rw n (
          has_dots-append (replaced base') (String.◌++◌ "-" suffix) (dash-starts_dot suffix)
            (replaced-has_dots base') (dash-has_dots suffix hs))
    ]

-- The name of an artifact has no slash, backslash, colon or space, and no two dots in a row, whatever
-- name its source has, where the suffix has none of them.
pub make_artifact_name-IsFlat :
    (base suffix : String) → IsFlat suffix → IsFlat (make_artifact_name base suffix)
make_artifact_name-IsFlat base suffix h =
    let (slash, backslash, colon, space) = is_one_of_four in
    record {
      slash = make_artifact_name-contains_char base suffix b'/' slash h.slash;
      backslash = make_artifact_name-contains_char base suffix b'\\' backslash h.backslash;
      colon = make_artifact_name-contains_char base suffix b':' colon h.colon;
      space = make_artifact_name-contains_char base suffix b' ' space h.space;
      dots = make_artifact_name-has_dots base suffix h.dots;
    }
