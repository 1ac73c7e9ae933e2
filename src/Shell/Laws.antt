-- ===== src/Shell/Laws.antt =====
-- shellquote.go, `Quote`, and the words of a POSIX shell.
use mathlib.Core.List.{append-nil, append_assoc}
use syncctl.Base.{
  ℕ, Bool, true, false, not, ◌&&◌, some, List, [], ◌∷◌, ◌++◌, map, ◌≡◌, refl, ◌∙◌, ap, sym, inl,
  inr, arith, all, Text, codes, is_empty, ◌==◌, Bool-cases, and_true, ==_iff,
}
use syncctl.Base.Strings.{contains_byte, join}
use syncctl.Shell.Posix.{between, bare, quoted, Lexer, blank, special, step_in, run, shell_words}
use syncctl.Shell.{safe_chars, is_safe, escape, quote}

-- The characters that the shell takes for themselves outside quotes.
plain : ℕ → Bool
unfolding special
plain c = not (special c) && not (blank c) && not (c == b'\'') && not (c == b'\\')

contains_byte-all :
    (p : ℕ → Bool) (s : Text) (c : ℕ) → all p s ≡ true → contains_byte s c ≡ true → p c ≡ true
unfolding contains_byte
contains_byte-all p [] c h m = cc
contains_byte-all p (d ∷ s) c h m = ground (arith, contains_byte-all p s c)

safe_chars-plain : all plain safe_chars ≡ true
unfolding plain
safe_chars-plain = refl

is_safe-plain : (s : Text) → is_safe s ≡ true → all plain s ≡ true
unfolding is_safe
is_safe-plain [] h = refl
is_safe-plain (c ∷ s) h =
    let (hc, hs) = and_true (contains_byte safe_chars c) (is_safe s) h in
    ground (arith, contains_byte-all plain safe_chars c safe_chars-plain hc, is_safe-plain s hs)

-- One plain character goes into the word.
run_char :
    (l : Lexer) (c : ℕ) (rest : Text)
    → plain c ≡ true
    → l.mode ≡ bare
    → run l (c ∷ rest) ≡ run (record l { word = l.word ++ c ∷ [] }) rest
unfolding plain run step_in
run_char l c rest h m = ground arith

run-plain :
    (s : Text) (l : Lexer) (rest : Text)
    → all plain s ≡ true
    → l.mode ≡ bare
    → run l (s ++ rest) ≡ run (record l { word = l.word ++ s }) rest
run-plain [] l rest h m = rw append-nil
run-plain (c ∷ s) l rest h m =
    let (hc, hs) = and_true (plain c) (all plain s) h in
    run_char l c (s ++ rest) hc m
    ∙ run-plain s (record l { word = l.word ++ c ∷ [] }) rest hs m
    ∙ rw append_assoc

-- The first character of a bare word also opens it.
run_open :
    (l : Lexer) (c : ℕ) (rest : Text)
    → plain c ≡ true
    → l.mode ≡ between
    → run l (c ∷ rest) ≡ run (record l { mode = bare; word = c ∷ [] }) rest
unfolding plain run step_in
run_open l c rest h m = ground arith

run_quoted :
    (l : Lexer) (c : ℕ) (rest : Text)
    → (c == b'\'') ≡ false
    → l.mode ≡ quoted
    → run l (c ∷ rest) ≡ run (record l { word = l.word ++ c ∷ [] }) rest
unfolding run step_in
run_quoted l c rest h m = ground arith

-- Close, escape and reopen: the word gains a single quote.
run_reopen :
    (l : Lexer) (rest : Text)
    → l.mode ≡ quoted
    → run l (codes "'\\''" ++ rest) ≡ run (record l { word = l.word ++ b'\'' ∷ [] }) rest
unfolding run step_in
run_reopen l rest m = ground arith

run-escape :
    (s : Text) (l : Lexer) (rest : Text)
    → l.mode ≡ quoted
    → run l (escape s ++ rest) ≡ run (record l { word = l.word ++ s }) rest
unfolding escape
run-escape [] l rest m = rw append-nil
run-escape (c ∷ s) l rest m = elim (Bool-cases (c == b'\'')) [
  | inl same ↦
      rw (same, (==_iff c b'\'').0 same)
        (run_reopen l (escape s ++ rest) m
          ∙ run-escape s (record l { word = l.word ++ b'\'' ∷ [] }) rest m
          ∙ rw append_assoc)
  | inr other ↦ rw other (
      run_quoted l c (escape s ++ rest) other m
      ∙ run-escape s (record l { word = l.word ++ c ∷ [] }) rest m
      ∙ rw append_assoc)
]

run_empty :
    (l : Lexer) (rest : Text)
    → l.mode ≡ between
    → run l (codes "''" ++ rest) ≡ run (record l { mode = bare; word = [] }) rest
unfolding run step_in
run_empty l rest m = ground arith

run_open_quote :
    (l : Lexer) (rest : Text)
    → l.mode ≡ between
    → run l (b'\'' ∷ rest) ≡ run (record l { mode = quoted; word = [] }) rest
unfolding run step_in
run_open_quote l rest m = ground arith

run_close_quote :
    (l : Lexer) (rest : Text)
    → l.mode ≡ quoted
    → run l (b'\'' ∷ rest) ≡ run (record l { mode = bare }) rest
unfolding run step_in
run_close_quote l rest m = ground arith

-- A quoted value becomes exactly the word that the shell holds next.
run-quote :
    (s : Text) (l : Lexer) (rest : Text)
    → l.mode ≡ between
    → run l (quote s ++ rest) ≡ run (record l { mode = bare; word = s }) rest
unfolding quote
run-quote [] l rest m = run_empty l rest m
run-quote (c ∷ s) l rest m = elim (Bool-cases (is_safe (c ∷ s))) [
  | inl safe ↦
      let (hc, hs) = and_true (plain c) (all plain s) (is_safe-plain (c ∷ s) safe) in
      rw safe (
        run_open l c (s ++ rest) hc m
        ∙ run-plain s (record l { mode = bare; word = c ∷ [] }) rest hs refl)
  | inr unsafe ↦
      rw (unsafe, append_assoc)
        (run_open_quote l (escape (c ∷ s) ++ (b'\'' ∷ rest)) m
          ∙ run-escape (c ∷ s) (record l { mode = quoted; word = [] }) (b'\'' ∷ rest) refl
          ∙ run_close_quote (record l { mode = quoted; word = c ∷ s }) rest refl)
]

run_blank :
    (l : Lexer) (rest : Text)
    → l.mode ≡ bare
    → run l (codes " " ++ rest)
      ≡ run (record l { mode = between; words = l.words ++ l.word ∷ [] }) rest
unfolding run step_in
run_blank l rest m = ground arith

run-join :
    (vs : List Text) (l : Lexer)
    → l.mode ≡ between
    → run l (join (map quote vs) (codes " ")) ≡ some (l.words ++ vs)
unfolding join
run-join [] l m = rw append-nil (unfold run in rw (m, run))
run-join (v ∷ []) l m = rw (← append-nil (quote v)) (run-quote v l [] m ∙ unfold run in refl)
run-join (v ∷ w ∷ vs) l m =
    run-quote v l (codes " " ++ join (map quote (w ∷ vs)) (codes " ")) m
    ∙ run_blank (record l { mode = bare; word = v }) (join (map quote (w ∷ vs)) (codes " ")) refl
    ∙ run-join (w ∷ vs) (record l { mode = between; word = v; words = l.words ++ v ∷ [] }) refl
    ∙ ap some (append_assoc l.words (v ∷ []) (w ∷ vs))

-- A POSIX shell reads values that are quoted by `Quote` and joined by blanks back as those values:
-- one word for each, byte for byte, whatever bytes they hold.
pub shell_words-quote : (vs : List Text) → shell_words (join (map quote vs) (codes " ")) ≡ some vs
unfolding shell_words
shell_words-quote vs = run-join vs (record { mode = between; word = []; words = [] }) refl

-- A word that needs no quotes.
unfoldable pub safe_word : Text → Bool
safe_word s = not (is_empty s) && is_safe s

map-quote_safe : (vs : List Text) → all safe_word vs ≡ true → map quote vs ≡ vs
unfolding quote safe_word
map-quote_safe [] h = refl
map-quote_safe (v ∷ vs) h = ground (arith, map-quote_safe vs)

-- Words of safe characters are read as they stand.
pub shell_words-safe :
    (vs : List Text) → all safe_word vs ≡ true → shell_words (join vs (codes " ")) ≡ some vs
shell_words-safe vs h =
    ap (λ ws. shell_words (join ws (codes " "))) (sym (map-quote_safe vs h)) ∙ shell_words-quote vs
