-- ===== src/Pgsetup/AppName.antt =====
-- pgsetup/pgsetup.go: `injectAppName` and `appendConnInfoAppname`, on the content of
-- postgresql.auto.conf.
use syncctl.Base.{
  Bool, false, not, Option, none, some, List, [], ◌∷◌, ◌++◌, Text, codes, if◌then◌else◌, ◌==◌,
}
use syncctl.Base.Strings.{contains, has_prefix, cut_last, split, join}

abbrev pub app_name : Text
app_name = codes "application_name="

abbrev pub conn_info : Text
conn_info = codes "primary_conninfo = "

abbrev before_quote : Text → Option (Text × Text) → Text
before_quote line none = line
before_quote line (some (front, rest)) = front

-- `injectAppName`: what stands behind the last quote of the line is lost.
unfoldable pub inject_app_name : Text → Text → Text
unfolding cut_last
inject_app_name line name =
    before_quote line (cut_last line b'\'') ++ (codes " application_name=" ++ (name ++ codes "'"))

unfoldable pub named_line : Text → Text → Text
unfolding contains inject_app_name
named_line line name = if not (contains line app_name) then inject_app_name line name else line

-- The loop over the lines, up to the first setting; without one, a line is added behind the last.
unfoldable pub update_lines : Text → List Text → List Text
unfolding named_line has_prefix
update_lines name [] = (codes "primary_conninfo = 'application_name=" ++ (name ++ codes "'")) ∷ []
update_lines name (line ∷ lines) =
    let rest = line ∷ update_lines name lines in
    if has_prefix line conn_info then named_line line name ∷ lines else rest

unfoldable pub ends_line : Text → Bool
ends_line [] = false
ends_line (c ∷ []) = c == 0x0a
ends_line (c ∷ d ∷ s) = ends_line (d ∷ s)

-- The new content.
unfoldable pub append_app_name : Text → Text → Text
unfolding update_lines split join ends_line
append_app_name name content =
    let out = join (update_lines name (split content 0x0a)) (codes "\n") in
    if not (ends_line out) then out ++ 0x0a ∷ [] else out
