-- ===== src/Prelude/Strings/Append.antt =====
-- Joining texts.
use Prim.Native.Char.{Char, code}
use Prim.Native.Nat.{ℕ}
use Prim.Native.String
use Prim.Native.String.append
use Prim.Native.String.{String}
use mathlib.Core.Path.{◌≡◌, refl, sym, ap, ◌∙◌}
use mathlib.Core.Bool.{true, false}
use mathlib.Core.List.{[], ◌∷◌}
use native.Mathlib.Omega.{arith}
use x_ui_aggr.Prelude.Tests.{◌==◌, neither}
use x_ui_aggr.Prelude.Strings.{
  has_prefix, drop_prefix, trim_prefix, contains_char, split, push_head,
}

pub append_assoc :
    (s t r : String) → String.◌++◌ (String.◌++◌ s t) r ≡ String.◌++◌ s (String.◌++◌ t r)
append_assoc String.[] t r =
    ap (λ x. String.◌++◌ x r) (append.nil t) ∙ sym (append.nil (String.◌++◌ t r))
append_assoc (String.◌∷◌ c s) t r =
    ap (λ x. String.◌++◌ x r) (append.cons c s t)
    ∙ append.cons c (String.◌++◌ s t) r
    ∙ ap (λ x. String.◌∷◌ c x) (append_assoc s t r)
    ∙ sym (append.cons c s (String.◌++◌ t r))

code_refl : (n : ℕ) → (n == n) ≡ true
code_refl n = ground arith

pub has_prefix-append : (p t : String) → has_prefix (String.◌++◌ p t) p ≡ true
unfolding has_prefix
has_prefix-append String.[] t = refl
has_prefix-append (String.◌∷◌ c p) t =
    ap (λ x. has_prefix x (String.◌∷◌ c p)) (append.cons c p t)
    ∙ rw (code_refl (code c)) (has_prefix-append p t)

drop_prefix-append : (whole p t : String) → drop_prefix whole (String.◌++◌ p t) p ≡ t
unfolding drop_prefix
drop_prefix-append whole String.[] t = append.nil t
drop_prefix-append whole (String.◌∷◌ c p) t =
    ap (λ x. drop_prefix whole x (String.◌∷◌ c p)) (append.cons c p t)
    ∙ rw (code_refl (code c)) (drop_prefix-append whole p t)

pub trim_prefix-append : (p t : String) → trim_prefix (String.◌++◌ p t) p ≡ t
unfolding trim_prefix
trim_prefix-append p t = drop_prefix-append (String.◌++◌ p t) p t

pub split-alone : (s : String) (k : ℕ) → contains_char s k ≡ false → split s k ≡ s ∷ []
unfolding split contains_char push_head
split-alone String.[] k h = refl
split-alone (String.◌∷◌ c s) k h =
    let (h1, h2) = neither (code c == k) (contains_char s k) h in rw (h1, split-alone s k h2) refl

-- The part before the first separator.
pub split-append :
    (p : String) (c : Char) (t : String) (k : ℕ)
    → contains_char p k ≡ false
    → (code c == k) ≡ true
    → split (String.◌++◌ p (String.◌∷◌ c t)) k ≡ p ∷ split t k
unfolding split contains_char push_head
split-append String.[] c t k hp hc = ap (λ x. split x k) (append.nil (String.◌∷◌ c t)) ∙ rw hc refl
split-append (String.◌∷◌ d p) c t k hp hc =
    let (h1, h2) = neither (code d == k) (contains_char p k) hp in
    ap (λ x. split x k) (append.cons d p (String.◌∷◌ c t))
    ∙ rw (h1, split-append p c t k h2 hc) refl
