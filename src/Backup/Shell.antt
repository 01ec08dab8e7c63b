-- ===== src/Backup/Shell.antt =====
-- shellEscape of backend/internal/services/backup/ssh.go, and how a shell reads a quoted word.
use Prim.Native.Char.{Char, code, char}
use Prim.Native.String
use Prim.Native.String.append
use text.Mathlib.TextEquality.{Char-path}
use x_ui_aggr.Prelude.Strings.Append.{append_assoc}
use x_ui_aggr.Prelude.{
  ◌≡◌, refl, sym, ap, ◌∙◌, String, true, ◌||◌, Option, none, some, ◌is◌, ◌==◌, if◌then◌else◌,
  Bool-cases, inl, inr, if_true, if_false, arith, str_eq_iff, ==_iff,
}

-- strings.ReplaceAll(value, "'", `'"'"'`)
unfoldable pub escape_quotes : String → String
escape_quotes String.[] = ""
escape_quotes (String.◌∷◌ c s) =
    let rest = escape_quotes s in
    if code c == 39 then String.◌++◌ "'\"'\"'" rest else String.◌∷◌ c rest

unfoldable pub shell_escape : String → String
shell_escape value =
    if value is "" then "''" else String.◌++◌ "'" (String.◌++◌ (escape_quotes value) "'")

-- Where a POSIX shell is in a word.
pub data Mode : Type 0 where
  bare single double : Mode

-- The word that a shell makes of a text of quoted parts, or none where the text has a character
-- outside quotes, one that is special in double quotes, or a quote without its end.
unfoldable pub read_word : Mode → String → Option String
read_word bare String.[] = some ""
read_word single String.[] = none
read_word double String.[] = none
read_word bare (String.◌∷◌ c s) =
    if code c == 39 then read_word single s else if code c == 34 then read_word double s else none
read_word single (String.◌∷◌ c s) =
    let rest = read_word single s in
    if code c == 39
    then read_word bare s
    else elim rest [ none ↦ none | some w ↦ some (String.◌∷◌ c w) ]
read_word double (String.◌∷◌ c s) =
    let rest = read_word double s in
    if code c == 34
    then read_word bare s
    else if code c == 36 || code c == 92 || code c == 96
    then none
    else elim rest [ none ↦ none | some w ↦ some (String.◌∷◌ c w) ]

escapes : shell_escape "it's" ≡ "'it'\"'\"'s'"
unfolding shell_escape escape_quotes ◌is◌
escapes = refl

reads : read_word bare "'it'\"'\"'s'" ≡ some "it's"
unfolding read_word
reads = refl

abbrev quote_char : Char
quote_char = char 39 tt

-- The text that stands for a quote, character by character.
quoted_quote :
    (x : String)
    → String.◌++◌ "'\"'\"'" x
      ≡ String.◌∷◌ quote_char (
          String.◌∷◌
            (char 34 tt)
            (String.◌∷◌ quote_char (String.◌∷◌ (char 34 tt) (String.◌∷◌ quote_char x))))
quoted_quote x =
    append.cons quote_char "\"'\"'" x
    ∙ ap (String.◌∷◌ quote_char) (
        append.cons (char 34 tt) "'\"'" x
        ∙ ap (String.◌∷◌ (char 34 tt)) (
            append.cons quote_char "\"'" x
            ∙ ap (String.◌∷◌ quote_char) (
                append.cons (char 34 tt) "'" x
                ∙ ap (String.◌∷◌ (char 34 tt))
                    (append.cons quote_char "" x ∙ ap (String.◌∷◌ quote_char) (append.nil x)))))

read_quoted :
    (x w : String)
    → read_word single x ≡ some w
    → read_word single (String.◌++◌ "'\"'\"'" x) ≡ some (String.◌∷◌ quote_char w)
unfolding read_word
read_quoted x w h = ap (read_word single) (quoted_quote x) ∙ rw h refl

quote_is : (c : Char) → (code c == 39) ≡ true → c ≡ quote_char
quote_is c h = Char-path c quote_char (omega (arith, (==_iff (code c) 39).0 h))

opened : (x : String) → String.◌++◌ "'" x ≡ String.◌∷◌ quote_char x
opened x = append.cons quote_char "" x ∙ ap (String.◌∷◌ quote_char) (append.nil x)

reads_opened : (x : String) → read_word bare (String.◌∷◌ quote_char x) ≡ read_word single x
unfolding read_word
reads_opened x = refl

reads_empty : read_word bare "''" ≡ some ""
unfolding read_word
reads_empty = refl

read_escaped : (s : String) → read_word single (String.◌++◌ (escape_quotes s) "'") ≡ some s
unfolding read_word escape_quotes
read_escaped String.[] = ap (read_word single) (append.nil "'")
read_escaped (String.◌∷◌ c s) = elim (Bool-cases (code c == 39)) [
  | inl quote ↦
      ap (λ x. read_word single (String.◌++◌ x "'"))
        (if_true (code c == 39) (String.◌++◌ "'\"'\"'" (escape_quotes s))
          (String.◌∷◌ c (escape_quotes s)) quote)
      ∙ ap (read_word single) (append_assoc "'\"'\"'" (escape_quotes s) "'")
      ∙ read_quoted (String.◌++◌ (escape_quotes s) "'") s (read_escaped s)
      ∙ ap (λ d. some (String.◌∷◌ d s)) (sym (quote_is c quote))
  | inr other ↦
      ap (λ x. read_word single (String.◌++◌ x "'"))
        (if_false (code c == 39) (String.◌++◌ "'\"'\"'" (escape_quotes s))
          (String.◌∷◌ c (escape_quotes s)) other)
      ∙ ap (read_word single) (append.cons c (escape_quotes s) "'")
      ∙ rw (other, read_escaped s) refl
]

-- A shell reads what shellEscape gives as one word, and that word is the text, whatever it holds.
pub read_word-shell_escape : (s : String) → read_word bare (shell_escape s) ≡ some s
unfolding shell_escape
read_word-shell_escape s = elim (Bool-cases (s is "")) [
  | inl empty ↦ rw empty (reads_empty ∙ ap some (sym ((str_eq_iff s "").0 empty)))
  | inr text ↦ rw text (
      ap (read_word bare) (opened (String.◌++◌ (escape_quotes s) "'"))
      ∙ reads_opened (String.◌++◌ (escape_quotes s) "'")
      ∙ read_escaped s)
]
