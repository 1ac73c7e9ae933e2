-- ===== src/ProjectPath.antt =====
-- internal/projectpath/projectpath.go: which project paths are accepted.
pub mod Safe
use syncctl.Base.{
  ℕ, Bool, true, false, not, ◌&&◌, ◌||◌, List, [], ◌∷◌, all, leb, ◌==◌, Text, codes, is_empty,
  text_eq, if◌then◌else◌,
}
use syncctl.Base.Result.{Result, ok, err, ◌>>◌}
use syncctl.Base.Strings.{has_prefix, contains_byte, split}

pub data PathError : Type 0 where
  path_empty leading_slash has_backslash has_nul empty_segment : PathError
  traversal_segment : Text → PathError
  invalid_characters : Text → PathError

-- `validPathRe`: a letter or digit, and then letters, digits, `_`, `.`, `-` and `/`.
abbrev alphanumeric : ℕ → Bool
alphanumeric c =
    (leb b'a' c && leb c b'z') || (leb b'A' c && leb c b'Z') || (leb b'0' c && leb c b'9')

abbrev path_char : ℕ → Bool
path_char c = alphanumeric c || c == b'_' || c == b'.' || c == b'-' || c == b'/'

unfoldable pub valid_path : Text → Bool
valid_path [] = false
valid_path (c ∷ s) = alphanumeric c && all path_char s

-- The loop over the segments.
unfoldable pub check_segments : List Text → Result PathError (Unit {0})
unfolding text_eq
check_segments [] = ok tt
check_segments (seg ∷ rest) =
    let later = check_segments rest in
    if is_empty seg
    then err empty_segment
    else if text_eq seg (codes ".") || text_eq seg (codes "..")
    then err (traversal_segment seg)
    else later

-- `Validate`
unfoldable pub validate : Text → Result PathError (Unit {0})
unfolding has_prefix contains_byte split check_segments valid_path
validate path =
    if is_empty path
    then err path_empty
    else if has_prefix path (codes "/")
    then err leading_slash
    else if contains_byte path b'\\'
    then err has_backslash
    else if contains_byte path 0
    then err has_nul
    else check_segments (split path b'/')
      >> (if not (valid_path path) then err (invalid_characters path) else ok tt)
