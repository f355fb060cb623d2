-- ===== src/PermFile/Permits.antt =====
-- libwzd-core/wzd_file.c: what _setPerm grants on a path, as _checkPerm sees it afterwards.
use wzdftpd.Base.{
  ℕ, Bool, true, false, Bytes, if◌then◌else◌, ◌==◌, ◌≡◌, codes, str_eq, last_index_of,
}
use wzdftpd.User.{User}
use wzdftpd.PermFile.Access.{
  Verdict, allowed, denied, error, with_slash, cut_all, right_list, right_retr, right_stor,
  right_cwd, right_mkdir, right_rmdir, right_rnfr,
}

-- The directory whose permission file has the rights of a path, and the name that the path has in it.
abbrev pub home : Bool → Bytes → Bytes
home true path = with_slash path
home false path = with_slash (cut_all path (last_index_of b'/' path)).0

abbrev pub own_name : Bool → Bytes → Bytes
own_name true path = codes "."
own_name false path = (cut_all path (last_index_of b'/' path)).1

-- 0 if the letter stands there, and 1 if not.
abbrev pub if_letter : ℕ → ℕ → Verdict
if_letter c letter = if c == letter then allowed else denied

-- The same, but -1 for a name other than ".".
abbrev pub if_dot : Bytes → Verdict → Verdict
if_dot name v = if str_eq name (codes ".") then v else error

-- What the three letters of a user's line on a name say of each right.
abbrev pub Says : Bytes → ℕ → ℕ → ℕ → (ℕ → Verdict) → Type 0
Says name r w x verdict =
    (verdict right_retr ≡ if_letter r b'r')
    × (verdict right_stor ≡ if_letter w b'w')
    × (verdict right_rnfr ≡ if_letter w b'w')
    × (verdict right_cwd ≡ if_dot name (if_letter x b'x'))
    × (verdict right_list ≡ if_dot name (if_letter r b'r'))
    × (verdict right_mkdir ≡ error)
    × (verdict right_rmdir ≡ error)
