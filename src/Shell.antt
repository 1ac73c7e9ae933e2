-- ===== src/Shell.antt =====
-- internal/shellquote/shellquote.go: `Quote` and `isSafe`.
pub mod Posix
pub mod Laws
use syncctl.Base.{ℕ, Bool, List, [], ◌∷◌, ◌++◌, all, Text, codes, is_empty, ◌==◌, if◌then◌else◌}
use syncctl.Base.Strings.{contains_byte}

-- `safeChars`
abbrev pub safe_chars : Text
safe_chars = codes "ABCDEFGHIJKLMNOPQRSTUVWXYZabcdefghijklmnopqrstuvwxyz0123456789@%+=:,./-_"

-- The characters outside ASCII are not in `safeChars`, so a test of the bytes is one of the runes.
unfoldable pub is_safe : Text → Bool
unfolding contains_byte
is_safe s = all (contains_byte safe_chars) s

-- `strings.ReplaceAll` of each single quote: close, escape, reopen.
unfoldable pub escape : Text → Text
escape [] = []
escape (c ∷ s) = (if c == b'\'' then codes "'\\''" else c ∷ []) ++ escape s

unfoldable pub quote : Text → Text
unfolding is_safe escape
quote s =
    if is_empty s then codes "''" else if is_safe s then s else b'\'' ∷ (escape s ++ b'\'' ∷ [])
