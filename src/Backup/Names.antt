-- ===== src/Backup/Names.antt =====
-- MakeArtifactName of backend/internal/services/backup/types.go.
pub mod Safe
use Prim.Native.Char.{code}
use Prim.Native.String
use x_ui_aggr.Prelude.{ℕ, ◌≡◌, refl, String, Bool, ◌&&◌, ◌||◌, ◌is◌, ◌==◌, if◌then◌else◌}
use x_ui_aggr.Prelude.Strings.{to_lower, trim_space}

-- The characters that are replaced wherever they stand.
unfoldable pub is_replaced : ℕ → Bool
is_replaced n = n == b' ' || n == b'/' || n == b'\\' || n == b':'

-- strings.NewReplacer(" ", "-", "/", "-", "\\", "-", ":", "-", "..", "-"): the text is read once,
-- from the left, and what is written is not read again.
unfoldable pub replaced : String → String
replaced String.[] = ""
replaced (String.◌∷◌ c String.[]) = if is_replaced (code c) then "-" else String.◌∷◌ c ""
replaced (String.◌∷◌ c (String.◌∷◌ d s)) =
    let after_pair = replaced s in
    let after_one = replaced (String.◌∷◌ d s) in
    if is_replaced (code c)
    then String.◌++◌ "-" after_one
    else if code c == b'.' && code d == b'.'
    then String.◌++◌ "-" after_pair
    else String.◌∷◌ c after_one

abbrev pub lowered : String → String
lowered base = trim_space (to_lower base)

unfoldable pub make_artifact_name : String → String → String
make_artifact_name base suffix =
    let name = replaced (if lowered base is "" then "artifact" else lowered base) in
    if suffix is "" then name else String.◌++◌ name (String.◌++◌ "-" suffix)

names : make_artifact_name " ../Etc: x " "T" ≡ "--etc--x-T"
unfolding make_artifact_name replaced is_replaced to_lower trim_space ◌is◌
names = refl
