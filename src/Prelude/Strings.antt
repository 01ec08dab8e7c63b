-- ===== src/Prelude/Strings.antt =====
-- What the program uses of Go's package strings. A text is its sequence of code points.
pub mod Trim
pub mod Append
use Prim.Native.Nat.{ℕ, zero, suc, ◌-◌}
use Prim.Native.Char.{Char, code}
use Prim.Native.String.{String, char_at}
use Prim.Native.String
use mathlib.Core.Path.{◌≡◌, refl}
use mathlib.Core.Bool.{Bool, true, false, ◌&&◌, ◌||◌}
use mathlib.Core.List.{List, [], ◌∷◌}
use x_ui_aggr.Prelude.Tests.{leb, ◌==◌, ◌is◌, if◌then◌else◌}

-- unicode.IsSpace
unfoldable pub is_space : Char → Bool
is_space c =
    let n = code c in
    (leb 9 n && leb n 13)
    || n == 32
    || n == 0x85
    || n == 0xa0
    || n == 0x1680
    || (leb 0x2000 n && leb n 0x200a)
    || n == 0x2028
    || n == 0x2029
    || n == 0x202f
    || n == 0x205f
    || n == 0x3000

pub trim_left : String → String
trim_left String.[] = ""
trim_left (String.◌∷◌ c s) = if is_space c then trim_left s else String.◌∷◌ c s

-- A character that ends the text goes if it satisfies the test.
pub trim_right_where : (Char → Bool) → String → String
trim_right_where p String.[] = ""
trim_right_where p (String.◌∷◌ c s) =
    let r = trim_right_where p s in if p c && r is "" then "" else String.◌∷◌ c r

unfoldable pub trim_space : String → String
unfolding is_space trim_left trim_right_where ◌is◌
trim_space s = trim_right_where is_space (trim_left s)

-- strings.TrimRight with a set of one character
unfoldable pub trim_right : String → ℕ → String
unfolding trim_right_where ◌is◌
trim_right s k = trim_right_where (λ c. code c == k) s

map_text : (Char → Char) → String → String
map_text f String.[] = ""
map_text f (String.◌∷◌ c s) = String.◌∷◌ (f c) (map_text f s)

lower_char : Char → Char
lower_char c =
    if leb b'A' (code c) && leb (code c) b'Z'
    then char_at "abcdefghijklmnopqrstuvwxyz" (code c - b'A')
    else c

upper_char : Char → Char
upper_char c =
    if leb b'a' (code c) && leb (code c) b'z'
    then char_at "ABCDEFGHIJKLMNOPQRSTUVWXYZ" (code c - b'a')
    else c

-- strings.ToLower and strings.ToUpper on ASCII letters; other characters stay.
unfoldable pub to_lower : String → String
unfolding map_text lower_char
to_lower s = map_text lower_char s

unfoldable pub to_upper : String → String
unfolding map_text upper_char
to_upper s = map_text upper_char s

unfoldable pub has_prefix : String → String → Bool
has_prefix s String.[] = true
has_prefix String.[] (String.◌∷◌ d t) = false
has_prefix (String.◌∷◌ c s) (String.◌∷◌ d t) = code c == code d && has_prefix s t

-- What follows the prefix `t`, or `s` itself where `t` is no prefix.
drop_prefix : String → String → String → String
drop_prefix whole s String.[] = s
drop_prefix whole String.[] (String.◌∷◌ d t) = whole
drop_prefix whole (String.◌∷◌ c s) (String.◌∷◌ d t) =
    let rest = drop_prefix whole s t in if code c == code d then rest else whole

unfoldable pub trim_prefix : String → String → String
unfolding drop_prefix
trim_prefix s t = drop_prefix s s t

-- strings.HasSuffix with a suffix of one character
unfoldable pub ends_with : String → ℕ → Bool
ends_with String.[] k = false
ends_with (String.◌∷◌ c String.[]) k = code c == k
ends_with (String.◌∷◌ c (String.◌∷◌ d s)) k = ends_with (String.◌∷◌ d s) k

unfoldable pub contains_char : String → ℕ → Bool
contains_char String.[] k = false
contains_char (String.◌∷◌ c s) k = code c == k || contains_char s k

unfoldable pub push_head : Char → List String → List String
push_head c [] = String.◌∷◌ c "" ∷ []
push_head c (x ∷ xs) = String.◌∷◌ c x ∷ xs

-- strings.Split with a separator of one character
unfoldable pub split : String → ℕ → List String
unfolding push_head
split String.[] k = "" ∷ []
split (String.◌∷◌ c s) k =
    let rest = split s k in if code c == k then "" ∷ rest else push_head c rest

-- strings.Join
unfoldable pub join : List String → String → String
join [] sep = ""
join (x ∷ []) sep = x
join (x ∷ y ∷ xs) sep = String.◌++◌ x (String.◌++◌ sep (join (y ∷ xs) sep))

shout : to_lower (trim_space "  FaiL\n") ≡ "fail"
unfolding to_lower trim_space
shout = refl

split_test : split "/a//b" b'/' ≡ "" ∷ "a" ∷ "" ∷ "b" ∷ []
unfolding split
split_test = refl

-- `len`, `s[:n]` and `s[n:]`, where one character is one byte.
unfoldable pub text_length : String → ℕ
text_length String.[] = 0
text_length (String.◌∷◌ c s) = suc (text_length s)

unfoldable pub take_text : ℕ → String → String
take_text n String.[] = ""
take_text zero (String.◌∷◌ c s) = ""
take_text (suc n) (String.◌∷◌ c s) = String.◌∷◌ c (take_text n s)

unfoldable pub drop_text : ℕ → String → String
drop_text n String.[] = ""
drop_text zero (String.◌∷◌ c s) = String.◌∷◌ c s
drop_text (suc n) (String.◌∷◌ c s) = drop_text n s
