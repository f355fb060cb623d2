-- ===== src/Path.antt =====
-- libwzd-core/wzd_dir.c: the functions that take paths apart and simplify them. A path is the list of
-- its bytes without the terminator, which is what a read at its length gives.
pub mod Machine
pub mod Steps
pub mod Simplify
use wzdftpd.Base.{
  ℕ, zero, suc, ◌+◌, ◌-◌, Bool, true, false, not, ◌&&◌, ◌||◌, List, [], ◌∷◌, ◌++◌, Option, none,
  some, Bytes, if◌then◌else◌, ◌==◌, ltb, leb, length, get_or, set, take, drop, str_eq,
  last_index_of,
}

-- `strncmp(s, prefix, strlen(prefix)) == 0`
unfoldable pub starts_with : Bytes → Bytes → Bool
starts_with [] s = true
starts_with (c ∷ p) [] = false
starts_with (c ∷ p) (d ∷ s) = c == d && starts_with p s

abbrev pub slash : ℕ
slash = b'/'

abbrev pub dot : ℕ
dot = b'.'

abbrev pub at : Bytes → ℕ → ℕ
at b i = get_or b i 0

-- `(strncmp(s, "/./", 3) == 0) || (strcmp(s, "/.") == 0)`
abbrev pub is_here : Bytes → Bool
is_here s = starts_with (slash ∷ dot ∷ slash ∷ []) s || str_eq s (slash ∷ dot ∷ [])

-- `(strncmp(s, "/../", 4) == 0) || (strcmp(s, "/..") == 0)`
abbrev pub is_up : Bytes → Bool
is_up s = starts_with (slash ∷ dot ∷ dot ∷ slash ∷ []) s || str_eq s (slash ∷ dot ∷ dot ∷ [])

-- `while ((pos2 > 0) && (filename[pos2] != '/')) pos2--;`
unfoldable pub back_to_slash : Bytes → ℕ → ℕ
back_to_slash b zero = zero
back_to_slash b (suc pos2) = if at b (suc pos2) == slash then suc pos2 else back_to_slash b pos2

abbrev pub one_less : ℕ → ℕ
one_less pos2 = if ltb 1 pos2 then pos2 - 1 else pos2

-- The end of the function: the bytes up to `pos2`, and a slash where there are none.
abbrev pub finish : Bytes → ℕ → Bytes
finish b pos2 = if pos2 == 0 then slash ∷ [] else take pos2 b

-- The loop from `pos` and `pos2`, with a round for each byte as fuel; `none` where it reads after the
-- terminator.
unfoldable pub simplify_from : ℕ → Bytes → ℕ → ℕ → Option Bytes
simplify_from zero b pos pos2 = none
simplify_from (suc fuel) b pos pos2 =
    let up = back_to_slash b (one_less pos2) in
    let skip = simplify_from fuel b (suc pos) pos2 in
    let skip_here = simplify_from fuel b (suc (suc pos)) pos2 in
    let pop = simplify_from fuel b (if at b up == slash then pos + 3 else pos + 4) up in
    let put = simplify_from fuel (set b pos2 slash) (suc pos) (suc pos2) in
    let copy = simplify_from fuel (set b pos2 (at b pos)) (suc pos) (suc pos2) in
    if ltb (length b) pos
    then none
    else (if pos == length b
        then some (finish b pos2)
        else (if at b pos == slash
            then (if at b (suc pos) == slash
                then skip
                else (if is_here (drop pos b)
                    then skip_here
                    else (if is_up (drop pos b) then pop else put)))
            else copy))

unfoldable pub path_simplify : Bytes → Option Bytes
path_simplify filename = simplify_from (suc (length filename)) filename 0 0

-- `file + strlen(file)` moved back to a slash or to the start, as an index.
abbrev pub last_slash : Bytes → ℕ
last_slash file = elim (last_index_of slash file) [ none ↦ 0 | some i ↦ i ]

-- `"."` for a name without a slash.
unfoldable pub path_getdirname : Bytes → Bytes
path_getdirname file =
    if last_slash file == 0
    then (if at file 0 == slash then slash ∷ [] else dot ∷ [])
    else take (last_slash file) file

abbrev pub strip_suffix : Bytes → Bytes → Bytes
strip_suffix suffix name =
    if leb (length suffix) (length name) && str_eq (drop (length name - length suffix) name) suffix
    then take (length name - length suffix) name
    else name

-- What stands after index `i`; from a start at 0 only a leading slash is skipped.
abbrev pub after : Bytes → ℕ → Bytes
after file i =
    if i == 0
    then (if at file 0 == slash && not (at file 1 == 0) then drop 1 file else file)
    else drop (suc i) file

-- An empty suffix stands for NULL too.
unfoldable pub path_getbasename : Bytes → Bytes → Bytes
path_getbasename file suffix = strip_suffix suffix (after file (last_slash file))

-- The loop of path_gettrailingname from index `i`, with `count` slashes seen.
unfoldable pub back_over : Bytes → ℕ → ℕ → ℕ → ℕ
back_over file n zero count = zero
back_over file n (suc i) count =
    let seen = if at file (suc i) == slash then suc count else count in
    let rest = back_over file n i seen in
    if ltb count n then (if at file (suc i) == slash && leb n seen then suc i else rest) else suc i

unfoldable pub path_gettrailingname : Bytes → ℕ → Bytes
path_gettrailingname file n = after file (back_over file n (length file) 0)
