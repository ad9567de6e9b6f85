-- ===== src/Base/Texts/Paths.antt =====
-- `Join` of Go's packages `path` and `path/filepath`, which cleans what it joins.
use Prim.Native.String.{String, ◌++◌}
use mathlib.Core.Bool.{Bool, ◌||◌}
use mathlib.Core.List.{List, [], ◌∷◌, reverse}
use text.Mathlib.Text.{◌==◌}
use comin.Base.Tests.{if◌then◌else◌}
use comin.Base.Texts.{has_prefix, split, join}

-- At `..`: the last part goes, except at the root and behind other `..`.
abbrev parent : Bool → List String → List String
parent rooted [] = if rooted then [] else ".." ∷ []
parent rooted (top ∷ rest) = if top == ".." then ".." ∷ top ∷ rest else rest

-- The parts that are kept, the last one first.
pub clean_from : Bool → List String → List String → List String
clean_from rooted kept [] = kept
clean_from rooted kept (part ∷ parts) =
    let next =
      if part == "" || part == "."
      then kept
      else if part == ".."
      then parent rooted kept
      else part ∷ kept in
    clean_from rooted next parts

-- `path.Clean`.
unfoldable pub clean : String → String
unfolding clean_from has_prefix split join
clean p =
    let rooted = has_prefix p "/" in
    let body = join (reverse (clean_from rooted [] (split p "/"))) "/" in
    if rooted then "/" ++ body else if body == "" then "." else body

-- `path.Join` of two parts.
unfoldable pub path_join : String → String → String
unfolding clean
path_join a b =
    if a == ""
    then (if b == "" then "" else clean b)
    else if b == ""
    then clean a
    else clean (a ++ "/" ++ b)
