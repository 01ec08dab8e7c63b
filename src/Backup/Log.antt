-- ===== src/Backup/Log.antt =====
-- runLogger of backend/internal/services/backup/runner.go: what its file has taken, and the last
-- lines in memory. A line is passed with its time, as the source formats it.
pub mod Last
use Prim.Native.String
use x_ui_aggr.Prelude.{
  ℕ, zero, suc, ◌-◌, String, Bool, Option, none, some, List, [], ◌∷◌, ◌++◌, length, ltb,
  if◌then◌else◌,
}
use x_ui_aggr.Prelude.Strings.{join}

pub record RunLogger : Type 0 where
  pub file : List String
  pub tail : List String
  pub max_tail : ℕ

-- s[n:]
unfoldable pub drop_lines : ℕ → List String → List String
drop_lines zero lines = lines
drop_lines (suc n) [] = []
drop_lines (suc n) (line ∷ lines) = drop_lines n lines

-- The error of os.Create, or none.
unfoldable pub new_run_logger : Option String → Option RunLogger
new_run_logger none = some (record { file = []; tail = []; max_tail = 80 })
new_run_logger (some msg) = none

-- `took` is what the file takes of the line: the line, or less of it where WriteString fails, whose
-- error is ignored.
unfoldable pub writef : String → String → RunLogger → RunLogger
writef took line l =
    let tail = l.tail ++ line ∷ [] in
    record l {
      file = l.file ++ took ∷ [];
      tail =
          if ltb l.max_tail (length tail) then drop_lines (length tail - l.max_tail) tail else tail;
    }

unfoldable pub excerpt : RunLogger → String
excerpt l = join l.tail "\n"

-- The lines of a run, one after the other, each after what the file takes of it.
unfoldable pub write_lines : List (String × String) → RunLogger → RunLogger
write_lines [] l = l
write_lines ((took, line) ∷ lines) l = write_lines lines (writef took line l)
