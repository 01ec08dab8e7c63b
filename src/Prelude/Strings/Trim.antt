-- ===== src/Prelude/Strings/Trim.antt =====
-- Trimming a trimmed text changes nothing.
use Prim.Native.Char.{Char}
use Prim.Native.String
use Prim.Native.String.append
use Prim.Native.String.{String}
use mathlib.Core.Path.{◌≡◌, refl, sym, ap, ◌∙◌}
use mathlib.Core.Logic.{inl, inr}
use mathlib.Core.Bool.{Bool, true, false, not, ◌&&◌}
use x_ui_aggr.Prelude.Tests.{◌is◌, if◌then◌else◌, Bool-cases, if_false}
use x_ui_aggr.Prelude.Strings.{is_space, trim_left, trim_right_where, trim_space}

trim_right_where_idem :
    (p : Char → Bool) (s : String)
    → trim_right_where p (trim_right_where p s) ≡ trim_right_where p s
unfolding trim_right_where
trim_right_where_idem p String.[] = refl
trim_right_where_idem p (String.◌∷◌ c s) =
    let r = trim_right_where p s in
    elim (Bool-cases (p c && r is "")) [
      | inl gone ↦ rw gone refl
      | inr kept ↦
          ap (trim_right_where p) (if_false (p c && r is "") "" (String.◌∷◌ c r) kept)
          ∙ ap (λ x. if p c && x is "" then "" else String.◌∷◌ c x) (trim_right_where_idem p s)
    ]

trim_left-trimmed :
    (s : String)
    → trim_left (trim_right_where is_space (trim_left s)) ≡ trim_right_where is_space (trim_left s)
unfolding trim_left trim_right_where
trim_left-trimmed String.[] = refl
trim_left-trimmed (String.◌∷◌ c s) = elim (Bool-cases (is_space c)) [
  | inl space ↦ rw space (trim_left-trimmed s)
  | inr other ↦ rw (other, other, other) refl
]

pub trim_space_idem : (s : String) → trim_space (trim_space s) ≡ trim_space s
unfolding trim_space
trim_space_idem s =
    ap (trim_right_where is_space) (trim_left-trimmed s)
    ∙ trim_right_where_idem is_space (trim_left s)

-- A trimmed text has nothing to trim on its right.
trimmed-right : (s : String) → trim_space s ≡ s → trim_right_where is_space s ≡ s
unfolding trim_space
trimmed-right s h =
    ap (trim_right_where is_space) (sym h) ∙ trim_right_where_idem is_space (trim_left s) ∙ h

unfoldable pub spaceless : String → Bool
spaceless String.[] = true
spaceless (String.◌∷◌ c s) = not (is_space c) && spaceless s

and_split : (a b : Bool) → (not a && b) ≡ true → (a ≡ false) × (b ≡ true)
and_split true b h = absurd cc
and_split false b h = (refl, h)

right-append :
    (p s : String)
    → spaceless p ≡ true
    → trim_right_where is_space s ≡ s
    → trim_right_where is_space (String.◌++◌ p s) ≡ String.◌++◌ p s
unfolding spaceless trim_right_where
right-append String.[] s hp hs =
    ap (trim_right_where is_space) (append.nil s) ∙ hs ∙ sym (append.nil s)
right-append (String.◌∷◌ c p) s hp hs =
    let (h1, h2) = and_split (is_space c) (spaceless p) hp in
    ap (trim_right_where is_space) (append.cons c p s)
    ∙ rw h1 (ap (λ x. String.◌∷◌ c x) (right-append p s h2 hs))
    ∙ sym (append.cons c p s)

left-append :
    (c : Char) (p s : String)
    → is_space c ≡ false
    → trim_left (String.◌++◌ (String.◌∷◌ c p) s) ≡ String.◌++◌ (String.◌∷◌ c p) s
unfolding trim_left
left-append c p s h = ap trim_left (append.cons c p s) ∙ rw h (sym (append.cons c p s))

-- A text without spaces before a trimmed one is trimmed with it.
pub trim_space-append :
    (c : Char) (p s : String)
    → spaceless (String.◌∷◌ c p) ≡ true
    → trim_space s ≡ s
    → trim_space (String.◌++◌ (String.◌∷◌ c p) s) ≡ String.◌++◌ (String.◌∷◌ c p) s
unfolding trim_space spaceless
trim_space-append c p s hp hs =
    let (h1, h2) = and_split (is_space c) (spaceless p) hp in
    ap (trim_right_where is_space) (left-append c p s h1)
    ∙ right-append (String.◌∷◌ c p) s hp (trimmed-right s hs)
