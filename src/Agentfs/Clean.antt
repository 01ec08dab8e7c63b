-- ===== src/Agentfs/Clean.antt =====
-- What the code uses of Go's package path: Clean and Dir.
use Prim.Native.String
use x_ui_aggr.Prelude.{
  ◌≡◌, refl, String, Bool, true, false, ◌||◌, List, [], ◌∷◌, ◌is◌, if◌then◌else◌, is_empty,
}
use x_ui_aggr.Prelude.Strings.{has_prefix, contains_char, split, join}

-- A name `..`: it removes the name before it. At the front it stays, except after the root.
unfoldable pub step_back : Bool → List String → List String
step_back rooted [] = if rooted then [] else ".." ∷ []
step_back rooted (top ∷ stack) = if top is ".." then ".." ∷ top ∷ stack else stack

abbrev pub push_name : Bool → String → List String → List String
push_name rooted name stack =
    if name is "" || name is "."
    then stack
    else if name is ".."
    then step_back rooted stack
    else name ∷ stack

-- The names that remain, the last one first.
unfoldable pub resolve : Bool → List String → List String → List String
unfolding step_back
resolve rooted [] stack = stack
resolve rooted (name ∷ names) stack = resolve rooted names (push_name rooted name stack)

unfoldable pub reverse_onto : List String → List String → List String
reverse_onto [] ys = ys
reverse_onto (x ∷ xs) ys = reverse_onto xs (x ∷ ys)

abbrev pub print_path : Bool → List String → String
print_path true names = String.◌++◌ "/" (join names "/")
print_path false names = if is_empty names then "." else join names "/"

unfoldable pub clean : String → String
unfolding resolve
clean path =
    let rooted = has_prefix path "/" in
    print_path rooted (reverse_onto (resolve rooted (split path b'/') []) [])

-- The text up to the last slash, with it.
upto_slash : String → String
upto_slash String.[] = ""
upto_slash (String.◌∷◌ c s) =
    let rest = upto_slash s in if contains_char (String.◌∷◌ c s) b'/' then String.◌∷◌ c rest else ""

unfoldable pub path_dir : String → String
unfolding upto_slash
path_dir path = clean (upto_slash path)

cleans : clean "/a//./b/../c/" ≡ "/a/c"
unfolding clean split has_prefix reverse_onto join ◌is◌
cleans = refl
