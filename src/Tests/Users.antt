-- ===== src/Tests/Users.antt =====
-- Tests of the registries and of the flags of a user, and the theorems on them at concrete inputs.
use wzdftpd.Base.{
  ℕ, not, ◌&&◌, [], ◌∷◌, Bytes, codes, ◌≡◌, ◌≢◌, refl, some, none, arith, inr, if◌then◌else◌, ◌==◌,
  ltb, leb, has_char,
}
use wzdftpd.Perm.Add.{c_string}
use wzdftpd.Registry.{Registry, empty, register, get_by_id, find_free, free_from, grow}
use wzdftpd.Registry.Laws.{IsValid, is_some, register-get_by_id, register-find_free}
use wzdftpd.User.{User, with_backend, user_register, user_get_by_id}
use wzdftpd.User.Flags.{
  padded, user_flags_change, user_flags_add, user_flags_delete, user_flags_clear, add_from, without,
}
use wzdftpd.User.Flags.Change
use wzdftpd.User.Flags.Change.{changed, user_flags_change-IsValid}

abbrev uid_of : User → ℕ
uid_of u = u.uid

abbrev user : ℕ → User
user i = record {
  uid = i;
  backend_id = 0;
  username = codes "bob";
  userpass = [];
  rootpath = codes "/";
  creator = 0;
  group_num = 0;
  groups = [];
  userperms = 0;
  flags = [];
  num_logins = 0;
  logins_per_ip = 0;
  ip_list = [];
  credits = 0;
  ratio = 0;
}

abbrev one_user : Registry User
one_user = record { max = 2; slots = none ∷ some (user 1) ∷ none ∷ [] }

register-get_by_id_example :
    let taken = ltb 0 2 && is_some (get_by_id one_user 0) in
    let (r', uid) = register uid_of with_backend (user 0) 7 one_user in
    (uid ≡ (if taken then none else some 0))
    × IsValid r'
    × (get_by_id r' 1 ≡ (
        if not taken && 1 == 0
        then some (with_backend (user 0) 7)
        else (if not taken && leb 2 0 && 1 == 2 then none else get_by_id one_user 1)))
register-get_by_id_example =
    register-get_by_id uid_of with_backend (user 0) 7 one_user (inr (omega arith, refl))
      (omega arith) 1

two_is_free : 2 ≡ find_free one_user 1
unfolding find_free free_from
two_is_free = refl

-- The first user gets number 255, which becomes the maximum; the next registration from there on
-- loses it.
lost_user :
    let first = (user_register (user 255) 0 empty).0 in
    let second = (user_register (user 300) 0 first).0 in
    (user_get_by_id first 255 ≡ some (user 255)) × (user_get_by_id second 255 ≡ none)
unfolding user_register user_get_by_id register get_by_id grow
lost_user = (refl, refl)

register-find_free_example :
    let (r', uid) = register uid_of with_backend (user 2) 7 one_user in
    (uid ≡ some 2) × (get_by_id r' 2 ≡ some (with_backend (user 2) 7))
register-find_free_example =
    register-find_free uid_of with_backend (user 2) 7 one_user 1 (inr (omega arith, refl))
      (omega arith) two_is_free (omega arith)

abbrev some_flags : Bytes
some_flags = padded (codes "tG")

some_flags-IsValid : Change.IsValid some_flags
unfolding c_string has_char
some_flags-IsValid = record { filled = refl; room = omega arith; exclusive = refl }

-- A flag is added at most once, a blank not at all, and a clash changes nothing.
flag_tests :
    (user_flags_change some_flags (codes "+s s") ≡ (padded (codes "tGs"), 0))
    × (user_flags_change some_flags (codes "+O") ≡ (some_flags, 5))
    × (user_flags_change some_flags (codes "-G") ≡ (padded (codes "t"), 0))
    × (user_flags_change some_flags (codes "kK") ≡ (padded (codes "kK"), 0))
unfolding user_flags_change user_flags_add user_flags_delete user_flags_clear add_from without
    c_string has_char
flag_tests = (refl, refl, refl, refl)

user_flags_change-IsValid_example :
    let (a, r) = user_flags_change some_flags (codes "+sI") in
    Change.IsValid a
    × (has_char b's' (c_string a) ≡ (
        if r == 0
        then changed b's' (c_string some_flags) (codes "+sI")
        else has_char b's' (c_string some_flags)))
    × (r ≢ 4)
user_flags_change-IsValid_example =
    user_flags_change-IsValid some_flags (codes "+sI") b's' some_flags-IsValid
