-- ===== src/Backup/Log/Last.antt =====
-- What the log keeps in memory.
use x_ui_aggr.Prelude.{
  ℕ, zero, suc, ◌-◌, ◌≤◌, ◌≡◌, refl, sym, ap, ◌∙◌, subst, String, none, some, List, [], ◌∷◌, ◌++◌,
  length, length-append, ltb, ltb→lt, if◌then◌else◌, Bool-cases, inl, inr, arith, min,
}
use mathlib.Core.List.{append-nil, append_assoc}
use x_ui_aggr.Backup.Log.{RunLogger, drop_lines, new_run_logger, writef, write_lines}

drop_lines-append :
    (n : ℕ) (xs ys : List String) → n ≤ length xs → drop_lines n (xs ++ ys) ≡ drop_lines n xs ++ ys
unfolding drop_lines
drop_lines-append zero xs ys h = refl
drop_lines-append (suc n) [] ys h = absurd (omega (arith, h))
drop_lines-append (suc n) (x ∷ xs) ys h = drop_lines-append n xs ys (omega (arith, h))

length-drop_lines : (n : ℕ) (xs : List String) → length (drop_lines n xs) ≡ length xs - n
unfolding drop_lines
length-drop_lines zero xs = omega arith
length-drop_lines (suc n) [] = omega arith
length-drop_lines (suc n) (x ∷ xs) = omega (arith, length-drop_lines n xs)

drop_lines-one : (n : ℕ) (xs : List String) → drop_lines 1 (drop_lines n xs) ≡ drop_lines (suc n) xs
unfolding drop_lines
drop_lines-one zero xs = refl
drop_lines-one (suc n) [] = refl
drop_lines-one (suc n) (x ∷ xs) = drop_lines-one n xs

abbrev last_lines : ℕ → List String → List String
last_lines n xs = if ltb n (length xs) then drop_lines (length xs - n) xs else xs

one_more :
    (m : ℕ) (line : String) (xs : List String)
    → last_lines m (drop_lines (length xs - m) xs ++ line ∷ [])
      ≡ drop_lines (length (xs ++ line ∷ []) - m) (xs ++ line ∷ [])
one_more m line xs =
    let kept = drop_lines (length xs - m) xs in
    let ys = xs ++ line ∷ [] in
    let l1 : length (kept ++ line ∷ []) ≡ suc (length xs - (length xs - m)) =
      omega (arith, length-append kept (line ∷ []), length-drop_lines (length xs - m) xs) in
    let l2 : length ys ≡ suc (length xs) = omega (arith, length-append xs (line ∷ [])) in
    let same : kept ++ line ∷ [] ≡ drop_lines (length xs - m) ys =
      sym (drop_lines-append (length xs - m) xs (line ∷ []) (omega arith)) in
    elim (Bool-cases (ltb m (length (kept ++ line ∷ [])))) [
      | inl more ↦
          let lt = ltb→lt m (length (kept ++ line ∷ [])) more in
          let e1 : length (kept ++ line ∷ []) - m ≡ 1 = omega (arith, lt, l1) in
          let e2 : length ys - m ≡ suc (length xs - m) = omega (arith, lt, l1, l2) in
          rw (more, e1, same, e2) (drop_lines-one (length xs - m) ys)
      | inr fits ↦
          let z1 : length xs - m ≡ 0 = grind arith in
          let z2 : length ys - m ≡ 0 = grind arith in rw (fits, same, z1, z2) refl
    ]

-- The lines that were written, and what the file took of each.
abbrev pub written : List (String × String) → List String
written [] = []
written ((took, line) ∷ lines) = line ∷ written lines

abbrev pub taken : List (String × String) → List String
taken [] = []
taken ((took, line) ∷ lines) = took ∷ taken lines

file-write_lines :
    (lines : List (String × String)) (l : RunLogger)
    → (write_lines lines l).file ≡ l.file ++ taken lines
unfolding write_lines writef
file-write_lines [] l = sym (append-nil l.file)
file-write_lines ((took, line) ∷ lines) l =
    file-write_lines lines (writef took line l) ∙ append_assoc l.file (took ∷ []) (taken lines)

-- `xs` are the lines before.
tail-write_lines :
    (xs : List String) (lines : List (String × String)) (l : RunLogger)
    → l.tail ≡ drop_lines (length xs - l.max_tail) xs
    → (write_lines lines l).tail
      ≡ drop_lines (length (xs ++ written lines) - l.max_tail) (xs ++ written lines)
unfolding write_lines writef
tail-write_lines xs [] l h = rw append-nil h
tail-write_lines xs ((took, line) ∷ lines) l h = rw append_assoc at (
    tail-write_lines (xs ++ line ∷ []) lines (writef took line l)
      (rw h (one_more l.max_tail line xs)))

fresh : RunLogger
fresh = record { file = []; tail = []; max_tail = 80 }

abbrev pub IsLast : List (String × String) → RunLogger → Type 0
IsLast lines l =
    (l.file ≡ taken lines)
    × (l.tail ≡ drop_lines (length (written lines) - 80) (written lines))
    × (length l.tail ≡ min 80 (length (written lines)))

fresh-IsLast : (lines : List (String × String)) → IsLast lines (write_lines lines fresh)
unfolding fresh drop_lines
fresh-IsLast lines =
    let xs = written lines in
    let k : (write_lines lines fresh).tail ≡ drop_lines (length xs - 80) xs =
      tail-write_lines [] lines fresh refl in
    (
      file-write_lines lines fresh,
      k,
      ap length k ∙ omega (arith, length-drop_lines (length xs - 80) xs),
    )

some-injective : {a b : RunLogger} → some a ≡ some b → a ≡ b
some-injective h = cc

-- After any number of writes to a new log, whatever its file takes of each line, the tail that
-- becomes the excerpt of the run is the end of the lines written: all of them while there are at most
-- eighty, and the last eighty from there. The file has what it took, in the order of the lines.
pub write_lines-IsLast :
    (lines : List (String × String)) (l : RunLogger)
    → new_run_logger none ≡ some l
    → IsLast lines (write_lines lines l)
unfolding new_run_logger fresh
write_lines-IsLast lines l h =
    let e : fresh ≡ l = some-injective h in
    subst (λ (x : RunLogger). IsLast lines (write_lines lines x)) e (fresh-IsLast lines)
