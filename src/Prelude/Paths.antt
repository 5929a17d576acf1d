-- ===== src/Prelude/Paths.antt =====
-- `path.Clean` and `path.Join` of the standard library, by the components of the path.
use mathlib.Core.Path.{◌≡◌, refl}
use mathlib.Core.Bool.{Bool, true, false}
use mathlib.Core.List.{List, [], ◌∷◌, ◌++◌, reverse}
use aws_efs_csi_driver.Prelude.Tests.{if◌then◌else◌}
use aws_efs_csi_driver.Prelude.Lists.{is_empty}
use aws_efs_csi_driver.Prelude.Bytes.{GoString, codes, str_eq, has_prefix}
use aws_efs_csi_driver.Prelude.Split.{split, join}

abbrev slash : GoString
slash = codes "/"

abbrev dot_dot : GoString
dot_dot = codes ".."

-- `..` after the components that are kept, the last one first.
abbrev up : Bool → List GoString → List GoString
up true [] = []
up false [] = dot_dot ∷ []
up rooted (c ∷ kept) = if str_eq c dot_dot then dot_dot ∷ c ∷ kept else kept

abbrev keep : Bool → GoString → List GoString → List GoString
keep rooted c kept =
    if is_empty c
    then kept
    else if str_eq c (codes ".")
    then kept
    else if str_eq c dot_dot
    then up rooted kept
    else c ∷ kept

keep_all : Bool → List GoString → List GoString → List GoString
keep_all rooted [] kept = kept
keep_all rooted (c ∷ cs) kept = keep_all rooted cs (keep rooted c kept)

abbrev finish : Bool → GoString → GoString
finish true body = slash ++ body
finish false [] = codes "."
finish false (c ∷ body) = c ∷ body

-- `path.Clean(p)`
unfoldable pub clean : GoString → GoString
unfolding keep_all split join
clean p =
    let rooted = has_prefix p slash in
    finish rooted (join (reverse (keep_all rooted (split p slash) [])) slash)

abbrev non_empty : List GoString → List GoString
non_empty [] = []
non_empty ([] ∷ ps) = non_empty ps
non_empty ((c ∷ p) ∷ ps) = (c ∷ p) ∷ non_empty ps

abbrev clean_joined : List GoString → GoString
clean_joined [] = []
clean_joined (p ∷ ps) = clean (join (p ∷ ps) slash)

-- `path.Join(elem...)`
unfoldable pub join_path : List GoString → GoString
unfolding clean
join_path ps = clean_joined (non_empty ps)

clean_tests :
    (clean (codes "/a/./b//../c/") ≡ codes "/a/c")
    × (clean (codes "../a/..") ≡ codes "..")
    × (clean (codes "/../a") ≡ codes "/a")
    × (clean [] ≡ codes ".")
    × (join_path (codes "/" ∷ [] ∷ codes "pvc-1" ∷ []) ≡ codes "/pvc-1")
unfolding join_path
clean_tests = (refl, refl, refl, refl, refl)
