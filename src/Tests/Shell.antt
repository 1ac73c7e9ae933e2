-- ===== src/Tests/Shell.antt =====
-- The cases of shellquote_test.go, and the theorems about quoting at concrete values.
use syncctl.Base.{some, List, [], ◌∷◌, map, ◌≡◌, refl, Text, codes}
use syncctl.Base.Strings.{join}
use syncctl.Shell.Laws.{shell_words-quote}
use syncctl.Shell.Posix.{shell_words}
use syncctl.Shell.{quote}

quote_table :
    (quote [] ≡ codes "''")
    × (quote (codes "/var/opt/gitlab/git-data") ≡ codes "/var/opt/gitlab/git-data")
    × (quote (codes "user@host:/a,b+c=d%e") ≡ codes "user@host:/a,b+c=d%e")
    × (quote (codes "/mnt/git data") ≡ codes "'/mnt/git data'")
    × (quote (codes "/tmp/$HOME") ≡ codes "'/tmp/$HOME'")
    × (quote (codes "it's") ≡ codes "'it'\\''s'")
    × (quote (codes "'") ≡ codes "''\\'''")
unfolding quote
quote_table = (refl, refl, refl, refl, refl, refl, refl)

abbrev arguments : List Text
arguments = codes "test" ∷ codes "-d" ∷ codes "it's $HOME; `id`" ∷ [] ∷ []

shell_words-quote_example : shell_words (join (map quote arguments) (codes " ")) ≡ some arguments
shell_words-quote_example = shell_words-quote arguments
