-- ===== src/User/Flags.antt =====
-- libwzd-core/wzd_user.c: the flags of a user, an array of MAX_FLAGS_NUM bytes with the flags first. A
-- result is the array and the number that is returned, without its sign.
pub mod Text
pub mod Change
use wzdftpd.Base.{
  ℕ, zero, suc, ◌+◌, ◌-◌, Bool, true, false, not, ◌&&◌, ◌||◌, List, [], ◌∷◌, ◌++◌, Bytes,
  if◌then◌else◌, ◌==◌, leb, length, set, replicate, has_char, is_alnum, get_or, drop,
}
use wzdftpd.Perm.Add.{c_string}

abbrev pub max_flags_num : ℕ
max_flags_num = 32

abbrev pub flag_siteop : ℕ
flag_siteop = b'O'

abbrev pub flag_gadmin : ℕ
flag_gadmin = b'G'

abbrev pub is_new : ℕ → Bytes → Bool
is_new c array = is_alnum c && not (has_char c (c_string array))

-- The loop of user_flags_add, with `pos` for `currlen + j`.
unfoldable pub add_from : Bytes → ℕ → Bytes → Bytes
add_from array pos [] = array
add_from array pos (c ∷ cs) =
    add_from (if is_new c array then set array pos c else array)
      (if is_new c array then suc pos else pos) cs

abbrev pub clash : Bytes → Bytes → Bool
clash cur flags =
    (has_char flag_siteop cur && has_char flag_gadmin flags)
    || (has_char flag_gadmin cur && has_char flag_siteop flags)
    || (has_char flag_siteop flags && has_char flag_gadmin flags)

unfoldable pub user_flags_add : Bytes → Bytes → Bytes × ℕ
user_flags_add array [] = (array, 1)
user_flags_add array (f ∷ flags) =
    let currlen = length (c_string array) in
    if clash (c_string array) (f ∷ flags)
    then (array, 2)
    else (if leb max_flags_num (currlen + length (f ∷ flags))
        then (array, 3)
        else (set (add_from array currlen (f ∷ flags)) (currlen + length (f ∷ flags)) 0, 0))

-- The loop of user_flags_delete.
unfoldable pub without : Bytes → Bytes → Bytes
without flags [] = []
without flags (c ∷ cs) = if has_char c flags then without flags cs else c ∷ without flags cs

-- strncpy of MAX_FLAGS_NUM bytes: zeros fill the array.
abbrev pub padded : Bytes → Bytes
padded s = s ++ replicate (max_flags_num - length s) 0

unfoldable pub user_flags_delete : Bytes → Bytes → Bytes × ℕ
user_flags_delete array [] = (array, 1)
user_flags_delete array (f ∷ flags) =
    if leb max_flags_num (length (f ∷ flags))
    then (array, 1)
    else (padded (without (f ∷ flags) (c_string array)), 0)

unfoldable pub user_flags_clear : Bytes
user_flags_clear = replicate max_flags_num 0

abbrev pub added_code : ℕ → ℕ
added_code r = if r == 2 then 5 else (if r == 0 then 0 else 2)

-- The last branches of user_flags_change: the text replaces the flags.
abbrev pub replace_flags : Bytes → Bytes → Bytes × ℕ
replace_flags array flags =
    if leb max_flags_num (length flags)
    then (array, 1)
    else (if has_char flag_siteop flags && has_char flag_gadmin flags
        then (array, 5)
        else (let (a, r) = user_flags_add user_flags_clear flags in (a, if r == 0 then 0 else 4)))

unfoldable pub user_flags_change : Bytes → Bytes → Bytes × ℕ
user_flags_change array flags =
    if get_or flags 0 0 == b'+'
    then (let (a, r) = user_flags_add array (drop 1 flags) in (a, added_code r))
    else (if get_or flags 0 0 == b'-'
        then (let (a, r) = user_flags_delete array (drop 1 flags) in (a, if r == 0 then 0 else 3))
        else (if is_alnum (get_or flags 0 0) then replace_flags array flags else (array, 1)))
