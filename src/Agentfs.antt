-- ===== src/Agentfs.antt =====
-- backend/internal/agentfs/fsops.go: which paths the file manager of a node's agent may touch.
pub mod Clean
pub mod Canonical
pub mod Allowed
mod Tests
use Prim.Native.String
use x_ui_aggr.Prelude.{
  String, Bool, true, false, ◌||◌, not, List, [], ◌∷◌, ◌is◌, if◌then◌else◌, any,
}
use x_ui_aggr.Prelude.Strings.{trim_space, has_prefix, contains_char, split}
use x_ui_aggr.Prelude.Results.{Result, ok, fail, refuse_if, and_then}
use x_ui_aggr.Agentfs.Clean.{clean, path_dir}

unfoldable pub normalize_path : String → Result String
normalize_path raw =
    let value = trim_space raw in
    refuse_if (value is "") "invalid_path" (
      refuse_if (contains_char value 0) "invalid_path" (
        refuse_if (contains_char value b'\\') "invalid_path" (
          refuse_if (not (has_prefix value "/")) "invalid_path" (
            refuse_if (any (λ part. part is "..") (split value b'/')) "invalid_path" (
              refuse_if (clean value is "." || clean value is "") "invalid_path" (
                refuse_if (not (has_prefix (clean value) "/")) "invalid_path"
                  (ok (clean value))))))))

abbrev pub blocked_prefixes : List String
blocked_prefixes = "/proc" ∷ "/sys" ∷ "/dev" ∷ []

abbrev pub is_under : String → String → Bool
is_under path prefix = path is prefix || has_prefix path (String.◌++◌ prefix "/")

unfoldable pub is_blocked : String → Bool
is_blocked p = any (is_under (clean p)) blocked_prefixes

-- The operation is not read.
unfoldable pub ensure_allowed : String → Result String
ensure_allowed raw =
    and_then (normalize_path raw) (λ path. refuse_if (is_blocked path) "forbidden" (ok path))

abbrev parent_of : String → String
parent_of path = let parent = path_dir path in if parent is "." || parent is "" then "/" else parent

unfoldable pub ensure_parent_allowed : String → Result String
ensure_parent_allowed raw =
    and_then (ensure_allowed raw)
      (λ path. refuse_if (is_blocked (parent_of path)) "forbidden" (ok path))
