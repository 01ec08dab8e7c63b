-- ===== src/Ops/Run/Log.antt =====
-- The texts of a log: trimLog, appendPreLog and parsePanelVersionFromLog. trimLog counts and cuts
-- bytes, so that a text there stands for its sequence of bytes, one character for each.
use Prim.Native.String
use Prim.Native.String.append
use native.Mathlib.Nat.{zero-add, suc-add}
use x_ui_aggr.Prelude.{
  ℕ, zero, suc, ◌+◌, ◌-◌, ◌<◌, ◌≡◌, refl, String, ◌&&◌, ◌||◌, List, [], ◌∷◌, ◌==◌, ltb, leb, ◌is◌,
  if◌then◌else◌, arith, min, Bool-cases, inl, inr, true, false, ap, ◌∙◌, subst, ◌≤◌, Option, none,
  some,
}
use x_ui_aggr.Prelude.Strings.{
  text_length, take_text, drop_text, trim_space, has_prefix, trim_prefix, split,
}

abbrev trimmed_mark : String
trimmed_mark = "\n...trimmed...\n"

-- Both sizes are positive or 0 in every call.
unfoldable pub trim_log : String → ℕ → ℕ → String
trim_log input head_size tail_size =
    let len = text_length input in
    if head_size == 0 && tail_size == 0
    then ""
    else if leb len (head_size + tail_size) || tail_size == 0
    then (if ltb head_size len && ltb 0 head_size then take_text head_size input else input)
    else String.◌++◌ (take_text head_size input)
        (String.◌++◌ trimmed_mark (drop_text (len - tail_size) input))

unfoldable pub append_pre_log : String → String → String
append_pre_log existing entry =
    if entry is ""
    then existing
    else if existing is ""
    then entry
    else String.◌++◌ existing (String.◌++◌ "\n" entry)

-- The last line with one of the two prefixes decides.
version_in : String → Option String
version_in line =
    if has_prefix line "service_version:"
    then some (trim_space (trim_prefix line "service_version:"))
    else if has_prefix line "service_version="
    then some (trim_space (trim_prefix line "service_version="))
    else none

last_version : List String → Option String
unfolding version_in
last_version [] = none
last_version (line ∷ lines) = elim (last_version lines) [
  | none ↦ version_in (trim_space line)
  | some v ↦ some v
]

unfoldable pub parse_panel_version_from_log : String → String
unfolding last_version
parse_panel_version_from_log log_text =
    if trim_space log_text is ""
    then ""
    else elim (last_version (split log_text b'\n')) [ none ↦ "" | some v ↦ v ]

length-take_text : (n : ℕ) (s : String) → text_length (take_text n s) ≡ min n (text_length s)
unfolding text_length take_text
length-take_text n String.[] = omega arith
length-take_text zero (String.◌∷◌ c s) = omega arith
length-take_text (suc n) (String.◌∷◌ c s) = omega (arith, length-take_text n s)

length-drop_text : (n : ℕ) (s : String) → text_length (drop_text n s) ≡ text_length s - n
unfolding text_length drop_text
length-drop_text n String.[] = omega arith
length-drop_text zero (String.◌∷◌ c s) = omega arith
length-drop_text (suc n) (String.◌∷◌ c s) = omega (arith, length-drop_text n s)

take-drop_text : (n : ℕ) (s : String) → String.◌++◌ (take_text n s) (drop_text n s) ≡ s
unfolding take_text drop_text
take-drop_text n String.[] = append.nil ""
take-drop_text zero (String.◌∷◌ c s) = append.nil (String.◌∷◌ c s)
take-drop_text (suc n) (String.◌∷◌ c s) =
    append.cons c (take_text n s) (drop_text n s) ∙ ap (λ x. String.◌∷◌ c x) (take-drop_text n s)

drop-drop_text : (m n : ℕ) (s : String) → drop_text m (drop_text n s) ≡ drop_text (n + m) s
unfolding drop_text
drop-drop_text zero n String.[] = refl
drop-drop_text (suc m) n String.[] = refl
drop-drop_text m zero (String.◌∷◌ c s) = rw zero-add refl
drop-drop_text m (suc n) (String.◌∷◌ c s) = rw suc-add (drop-drop_text m n s)

-- What is left of a text of which a head and a tail of these sizes are to be kept: all of it, if it is
-- no longer than the head; the head alone, if what comes after the head is no longer than the tail; and
-- beyond, the head, the mark and the tail, without what stands between.
pub data IsTrimmed (head_size tail_size : ℕ) : String → String → Type 0 where
  whole : (s : String) → text_length s ≤ head_size → IsTrimmed head_size tail_size s s
  end_lost :
      (a b : String)
      → text_length a ≡ head_size
      → 0 < text_length b
      → text_length b ≤ tail_size
      → IsTrimmed head_size tail_size (String.◌++◌ a b) a
  middle_lost :
      (a b c : String)
      → text_length a ≡ head_size
      → 0 < text_length b
      → text_length c ≡ tail_size
      → IsTrimmed head_size tail_size
          (String.◌++◌ a (String.◌++◌ b c))
          (String.◌++◌ a (String.◌++◌ trimmed_mark c))

cut_to_head :
    (input : String) (head_size tail_size : ℕ)
    → head_size < text_length input
    → text_length input ≤ head_size + tail_size
    → IsTrimmed head_size tail_size input (take_text head_size input)
cut_to_head input head_size tail_size more fits =
    let a = length-take_text head_size input in
    let b = length-drop_text head_size input in
    subst (λ x. IsTrimmed head_size tail_size x (take_text head_size input))
      (take-drop_text head_size input)
      (end_lost (take_text head_size input) (drop_text head_size input) (omega (arith, a))
        (omega (arith, b)) (omega (arith, b)))

cut_out :
    (input : String) (head_size tail_size : ℕ)
    → head_size + tail_size < text_length input
    → IsTrimmed head_size tail_size input (
        String.◌++◌
          (take_text head_size input)
          (String.◌++◌ trimmed_mark (drop_text (text_length input - tail_size) input)))
cut_out input head_size tail_size long =
    let n = text_length input - head_size - tail_size in
    let after = drop_text head_size input in
    let la = length-take_text head_size input in
    let ld = length-drop_text head_size input in
    let lb = length-take_text n after in
    let lc = length-drop_text n after in
    let tail : drop_text n after ≡ drop_text (text_length input - tail_size) input =
      drop-drop_text n head_size input ∙ ap (λ k. drop_text k input) (omega arith) in
    subst
      (λ c.
        IsTrimmed head_size tail_size input
          (String.◌++◌ (take_text head_size input) (String.◌++◌ trimmed_mark c)))
      tail
      (subst
        (λ x.
          IsTrimmed head_size tail_size x (
            String.◌++◌ (take_text head_size input) (String.◌++◌ trimmed_mark (drop_text n after))))
        (ap (String.◌++◌ (take_text head_size input)) (take-drop_text n after)
          ∙ take-drop_text head_size input)
        (middle_lost (take_text head_size input) (take_text n after) (drop_text n after)
          (omega (arith, la)) (omega (arith, lb, ld)) (omega (arith, lc, ld))))

-- For positive sizes a log that is no longer than the head stays as it is. One that is longer, but not
-- than the two sizes together, is cut down to the head, so that its end is lost; of a longer one the
-- head and the tail are kept, with the mark in place of what is between.
pub trim_log-IsTrimmed :
    (input : String) (head_size tail_size : ℕ)
    → 0 < head_size
    → 0 < tail_size
    → IsTrimmed head_size tail_size input (trim_log input head_size tail_size)
unfolding trim_log
trim_log-IsTrimmed input head_size tail_size h t =
    let len = text_length input in
    let some_head : (head_size == 0) ≡ false = ground arith in
    let some_tail : (tail_size == 0) ≡ false = ground arith in
    let cuts : ltb 0 head_size ≡ true = ground arith in
    elim (Bool-cases (leb len (head_size + tail_size))) [
      | inl fits ↦ elim (Bool-cases (ltb head_size len)) [
        | inl more ↦
            rw (some_head, fits, more, cuts)
              (cut_to_head input head_size tail_size (ground arith) (ground arith))
        | inr less ↦ rw (some_head, fits, less) (whole input (ground arith))
      ]
      | inr long ↦
          rw (some_head, long, some_tail) (cut_out input head_size tail_size (ground arith))
    ]
