-- ===== src/Base/FilePaths.antt =====
-- `filepath.Clean` and `filepath.Join` on Unix, by the segments between the slashes.
use mathlib.Core.Bool.{Bool, true, false, ◌||◌}
use mathlib.Core.List.{List, [], ◌∷◌, ◌++◌, reverse}
use syncctl.Base.Logic.{if◌then◌else◌}
use syncctl.Base.Bytes.{Text, codes, is_empty, text_eq}
use syncctl.Base.Strings.{has_prefix, split, join}

abbrev pub is_dot : Text → Bool
is_dot seg = is_empty seg || text_eq seg (codes ".")

abbrev pub is_dots : Text → Bool
is_dots seg = text_eq seg (codes "..")

-- `..` takes the last name back; where there is none, a rooted path stays and another keeps it.
unfoldable pub back_up : Bool → List Text → List Text
unfolding text_eq
back_up rooted [] = if rooted then [] else codes ".." ∷ []
back_up rooted (name ∷ names) = if is_dots name then codes ".." ∷ (name ∷ names) else names

-- The names that are left, the last one first.
unfoldable pub clean_onto : Bool → List Text → List Text → List Text
unfolding back_up
clean_onto rooted names [] = names
clean_onto rooted names (seg ∷ rest) =
    clean_onto rooted
      (if is_dot seg then names else if is_dots seg then back_up rooted names else seg ∷ names) rest

unfoldable pub rendered : Bool → List Text → Text
unfolding join
rendered true names = b'/' ∷ join names (codes "/")
rendered false [] = codes "."
rendered false (name ∷ names) = join (name ∷ names) (codes "/")

-- `filepath.Clean(path)`
unfoldable pub clean : Text → Text
unfolding has_prefix split clean_onto rendered
clean path =
    let rooted = has_prefix path (codes "/") in
    if is_empty path
    then codes "."
    else rendered rooted (reverse (clean_onto rooted [] (split path b'/')))

-- `filepath.Join(root, rel)`
unfoldable pub join_paths : Text → Text → Text
unfolding clean
join_paths root rel =
    if is_empty root then (if is_empty rel then [] else clean rel) else clean (root ++ (b'/' ∷ rel))
