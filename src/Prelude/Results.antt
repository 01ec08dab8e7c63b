-- ===== src/Prelude/Results.antt =====
-- Go's pair of a value and an error: a result is a value or the message of the error.
use Prim.Native.String.{String}
use mathlib.Core.Path.{◌≡◌, refl}
use mathlib.Core.Bool.{Bool, true, false}

pub data Result {ℓ} (A : Type ℓ) : Type ℓ where
  ok : A → Result A
  fail : String → Result A

-- `if bad { return errors.New(msg) }`, and the code that follows.
abbrev pub refuse_if {ℓ} : {A : Type ℓ} → Bool → String → Result A → Result A
refuse_if true msg next = fail msg
refuse_if false msg next = next

abbrev pub and_then {ℓ κ} : {A : Type ℓ} {B : Type κ} → Result A → (A → Result B) → Result B
and_then (ok a) f = f a
and_then (fail msg) f = fail msg

pub fail≢ok {ℓ} : {A : Type ℓ} {msg : String} {a : A} → fail msg ≡ ok a → ⊥
fail≢ok h = cc

-- A result that is a value has passed the refusal.
pub refuse_if-ok {ℓ} :
    {A : Type ℓ} (b : Bool) (msg : String) (next : Result A) {a : A}
    → refuse_if b msg next ≡ ok a
    → (b ≡ false) × (next ≡ ok a)
refuse_if-ok true msg next h = absurd (fail≢ok h)
refuse_if-ok false msg next h = (refl, h)

pub and_then-ok {ℓ κ} :
    {A : Type ℓ} {B : Type κ} (m : Result A) (f : A → Result B) {b : B}
    → and_then m f ≡ ok b
    → (a : A) × (m ≡ ok a) × (f a ≡ ok b)
and_then-ok (ok a) f h = (a, refl, h)
and_then-ok (fail msg) f h = absurd (fail≢ok h)

pub ok-injective {ℓ} : {A : Type ℓ} {a b : A} → ok a ≡ ok b → a ≡ b
ok-injective h = cc
