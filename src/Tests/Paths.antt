-- ===== src/Tests/Paths.antt =====
-- Tests of the functions on paths, the ones of tests/test_wzd_dir.c among them, and the theorems on
-- them at concrete inputs.
use wzdftpd.Base.{
  List, [], ◌∷◌, Bytes, codes, ◌≡◌, refl, some, none, arith, All, str_eq, last_index_of,
}
use wzdftpd.Path.{
  path_simplify, path_getdirname, path_getbasename, path_gettrailingname, simplify_from,
  starts_with, back_to_slash, back_over,
}
use wzdftpd.Path.Simplify.{join, normalize, simplified, path_simplify-join, IsName}

simplify_tests :
    (path_simplify (codes "/a//b/./c/../d/") ≡ some (codes "/a/b/d/"))
    × (path_simplify (codes "/../../etc") ≡ some (codes "/etc"))
    × (path_simplify (codes "toto/../dir") ≡ some (codes "dir"))
    × (path_simplify (codes "/a/..") ≡ some (codes "/"))
unfolding path_simplify simplify_from starts_with str_eq back_to_slash
simplify_tests = (refl, refl, refl, refl)

-- A relative path that ends by leaving its first directory is read after its terminator.
leaves_buffer : path_simplify (codes "toto/..") ≡ none
unfolding path_simplify simplify_from starts_with str_eq back_to_slash
leaves_buffer = refl

name_tests :
    (path_getdirname (codes "/a/b") ≡ codes "/a")
    × (path_getdirname (codes "b") ≡ codes ".")
    × (path_getbasename (codes "/a/b.c") (codes ".c") ≡ codes "b")
    × (path_gettrailingname (codes "/a/b/c") 2 ≡ codes "b/c")
unfolding path_getdirname path_getbasename path_gettrailingname last_index_of str_eq back_over
name_tests = (refl, refl, refl, refl)

abbrev climbing : List Bytes
climbing = codes ".." ∷ codes "a" ∷ [] ∷ codes "." ∷ codes "b" ∷ codes ".." ∷ codes "c" ∷ []

path_simplify-join_example :
    (path_simplify (join climbing) ≡ some (simplified climbing))
    × All IsName (normalize [] climbing)
path_simplify-join_example =
    path_simplify-join (codes "..")
      (codes "a" ∷ [] ∷ codes "." ∷ codes "b" ∷ codes ".." ∷ codes "c" ∷ []) (ground arith)
