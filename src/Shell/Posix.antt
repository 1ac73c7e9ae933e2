-- ===== src/Shell/Posix.antt =====
-- How a POSIX shell splits the text of a command into words (XCU 2.2 and 2.3), as far as it takes
-- no expansion and meets no operator: the independent description that `Quote` is held to.
use syncctl.Base.{
  ℕ, Bool, ◌||◌, Option, none, some, List, [], ◌∷◌, ◌++◌, Text, codes, ◌==◌, if◌then◌else◌,
}
use syncctl.Base.Strings.{contains_byte}

pub data Mode : Type 0 where
  between bare quoted escaped : Mode

pub record Lexer : Type 0 where
  pub mode : Mode
  pub word : Text
  pub words : List Text

abbrev pub blank : ℕ → Bool
blank c = c == 0x20 || c == 0x09

-- Operators, expansions, patterns and the other characters that mean more than themselves.
abbrev special_chars : Text
special_chars = codes "\n|&;<>()$`\"*?[]#~!{}"

unfoldable pub special : ℕ → Bool
unfolding contains_byte
special c = contains_byte special_chars c

-- A character outside quotes that belongs to a word, at its start or further on.
bare_char : Lexer → ℕ → Option Lexer
bare_char l c =
    if c == b'\''
    then some (record l { mode = quoted })
    else if c == b'\\'
    then some (record l { mode = escaped })
    else if special c
    then none
    else some (record l { mode = bare; word = l.word ++ c ∷ [] })

unfoldable pub step_in : Mode → Lexer → ℕ → Option Lexer
unfolding bare_char
step_in between l c = if blank c then some l else bare_char (record l { word = [] }) c
step_in bare l c =
    if blank c
    then some (record l { mode = between; words = l.words ++ l.word ∷ [] })
    else bare_char l c
step_in quoted l c =
    if c == b'\''
    then some (record l { mode = bare })
    else some (record l { word = l.word ++ c ∷ [] })
step_in escaped l c =
    if c == b'\n' then none else some (record l { mode = bare; word = l.word ++ c ∷ [] })

-- An open quote or a trailing backslash is an error.
finish : Mode → Lexer → Option (List Text)
finish between l = some l.words
finish bare l = some (l.words ++ l.word ∷ [])
finish _ l = none

unfoldable pub run : Lexer → Text → Option (List Text)
unfolding finish step_in
run l [] = finish l.mode l
run l (c ∷ s) = elim (step_in l.mode l c) [ none ↦ none | some l' ↦ run l' s ]

-- The words that the shell passes on, or `none` where it would interpret some of the text.
unfoldable pub shell_words : Text → Option (List Text)
unfolding run special
shell_words = run (record { mode = between; word = []; words = [] })
