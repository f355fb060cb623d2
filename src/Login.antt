-- ===== src/Login.antt =====
-- libwzd-core/wzd_login.c: the checks of a login. What the backend, the file system, the TLS library
-- and the resolver answer, and the other sessions, are a value of `Server`: the next command may find
-- another one.
pub mod Loop
pub mod Checks
pub mod Entry
pub mod Complete
use wzdftpd.Base.{
  ℕ, zero, suc, ◌+◌, ◌-◌, Bool, true, false, not, ◌&&◌, ◌||◌, List, [], ◌∷◌, Option, none, some,
  Bytes, if◌then◌else◌, ◌==◌, ltb, leb, length, get_or, take, str_eq, has_char,
}
use wzdftpd.Ip.{ip_list_check_ident, ip_compare}
use wzdftpd.Perm.Add.{c_string}
use wzdftpd.User.{User, WzdGroup}

-- The return values E_OK, E_USER_REJECTED and so on
pub data LoginCode : Type 0 where
  e_ok e_user_rejected e_user_idontexist e_user_deleted e_user_closed e_user_toomanyusers :
      LoginCode
  e_user_numlogins e_user_loginsperip e_group_numlogins e_user_tlsforced e_user_noip : LoginCode
  e_user_no_home e_pass_rejected : LoginCode

-- tls_type_t
pub data TlsType : Type 0 where
  tls_notype tls_explicit tls_strict_explicit tls_implicit : TlsType

-- What the checks read of a context in context_list.
pub record Session : Type 0 where
  pub userid : ℕ
  pub control_socket : ℕ
  pub hostip : Bytes

pub record Server : Type 0 where
  -- GetUserByID and GetGroupByID
  pub user_by_id : ℕ → Option User
  pub group_by_id : ℕ → Option WzdGroup
  -- the backend's validate_login and validate_pass: the number of the user
  pub validate_login : Bytes → Option ℕ
  pub validate_pass : Bytes → Bytes → Option ℕ
  -- whether do_chdir("/") succeeds for the user
  pub enters_home : ℕ → Bool
  -- whether tls_auth succeeds, and iptohostname on the address of an IDNT
  pub tls_auth : Bytes → Bool
  pub resolves : Bytes → Bool
  pub getipbyname : Bytes → Option Bytes
  pub gethostbyaddr : Bytes → Option Bytes
  -- mainConfig and context_list
  pub site_closed : Bool
  pub max_users : ℕ
  pub reject_unknown_users : Bool
  pub disable_tls : Bool
  pub tls_type : TlsType
  pub bnc_list : Option (List Bytes)
  pub context_list : List Session

-- The context of the client. `ip` is the text that inet_ntop makes of `hostip`, and `tls` is the flag
-- CONNECTION_TLS.
pub record Context : Type 0 where
  pub userid : ℕ
  pub control_socket : ℕ
  pub hostip : Bytes
  pub ip : Bytes
  pub ident : Option Bytes
  pub idnt_address : Option Bytes
  pub tls : Bool
  pub private_data : Bool

-- The flags of wzd_flag_t that the login reads
abbrev pub flag_deleted : ℕ
flag_deleted = b'D'

abbrev pub flag_siteop : ℕ
flag_siteop = b'O'

abbrev pub flag_always_allow_login : ℕ
flag_always_allow_login = b'a'

abbrev pub flag_tls : ℕ
flag_tls = b'k'

abbrev pub user_has_flag : User → ℕ → Bool
user_has_flag u flag = has_char flag (c_string u.flags)

-- The contexts, with the client's own under its new user number.
unfoldable pub with_userid : ℕ → ℕ → List Session → List Session
with_userid socket uid [] = []
with_userid socket uid (s ∷ l) =
    (if s.control_socket == socket then record s { userid = uid } else s) ∷ with_userid socket uid l

abbrev pub counts : Context → Session → Bool
counts c s = c.userid == s.userid && not (c.control_socket == s.control_socket)

-- count_logins and count_fromip
unfoldable pub count_logins : Context → List Session → ℕ
count_logins c [] = 0
count_logins c (s ∷ l) = if counts c s then count_logins c l + 1 else count_logins c l

unfoldable pub count_fromip : Context → List Session → ℕ
count_fromip c [] = 0
count_fromip c (s ∷ l) =
    if counts c s && str_eq c.hostip s.hostip then count_fromip c l + 1 else count_fromip c l

unfoldable pub occurrences : ℕ → List ℕ → ℕ
occurrences g [] = 0
occurrences g (h ∷ l) = if h == g then occurrences g l + 1 else occurrences g l

abbrev pub groups_of : User → List ℕ
groups_of u = take u.group_num u.groups

abbrev pub memberships : ℕ → Option User → ℕ
memberships g none = 0
memberships g (some u) = occurrences g (groups_of u)

-- `num_logins[k]` for the group `g` of the user.
unfoldable pub group_logins : Server → ℕ → List Session → ℕ
group_logins s g [] = 0
group_logins s g (c ∷ l) = memberships g (s.user_by_id c.userid) + group_logins s g l

abbrev pub group_full : Option WzdGroup → ℕ → Bool
group_full none n = false
group_full (some g) n = not (g.num_logins == 0) && ltb g.num_logins n

unfoldable pub some_group_full : Server → List Session → List ℕ → Bool
some_group_full s contexts [] = false
some_group_full s contexts (g ∷ l) =
    group_full (s.group_by_id g) (group_logins s g contexts) || some_group_full s contexts l

abbrev pub limited : User → Bool
limited me = not (user_has_flag me flag_always_allow_login || user_has_flag me flag_siteop)

-- check_tls_forced, for the user that it finds
unfoldable pub check_tls_forced : User → Context → Bool
check_tls_forced me c = user_has_flag me flag_tls && not c.tls

-- do_user once the user is found.
unfoldable pub check_user : Server → User → Context → LoginCode
check_user s me c =
    let contexts = with_userid c.control_socket c.userid s.context_list in
    if user_has_flag me flag_deleted
    then e_user_deleted
    else (if s.site_closed && not (user_has_flag me flag_siteop)
        then e_user_closed
        else (if limited me && not (s.max_users == 0) && ltb s.max_users (length contexts)
            then e_user_toomanyusers
            else (if limited me
                  && not (me.num_logins == 0)
                  && leb me.num_logins (count_logins c contexts)
                then e_user_numlogins
                else (if limited me
                      && not (me.logins_per_ip == 0)
                      && leb me.logins_per_ip (count_fromip c contexts)
                    then e_user_loginsperip
                    else (if some_group_full s contexts (groups_of me)
                        then e_group_numlogins
                        else (if check_tls_forced me c then e_user_tlsforced else e_ok))))))

abbrev pub check_found : Server → Option User → Context → LoginCode
check_found s none c = e_user_idontexist
check_found s (some me) c = check_user s me c

abbrev pub validated : Server → Option ℕ → Context → Context × LoginCode
validated s none c = (c, e_user_rejected)
validated s (some uid) c =
    let c' = record c { userid = uid } in (c', check_found s (s.user_by_id uid) c')

unfoldable pub do_user : Server → Bytes → Context → Context × LoginCode
do_user s username c = validated s (s.validate_login username) c

abbrev pub allows : Option Bool → Bool
allows (some true) = true
allows _ = false

abbrev pub group_allows : Server → Context → Option WzdGroup → Bool
group_allows s c none = false
group_allows s c (some g) =
    allows (ip_list_check_ident s.getipbyname s.gethostbyaddr g.ip_list c.ip c.ident)

-- The loop over the groups of the user.
unfoldable pub some_group_allows : Server → Context → List ℕ → Bool
some_group_allows s c [] = false
some_group_allows s c (g ∷ l) = group_allows s c (s.group_by_id g) || some_group_allows s c l

abbrev pub ip_of_user : Server → Context → Option User → LoginCode
ip_of_user s c none = if s.reject_unknown_users then e_user_idontexist else e_ok
ip_of_user s c (some u) =
    if allows (ip_list_check_ident s.getipbyname s.gethostbyaddr u.ip_list c.ip c.ident)
      || some_group_allows s c (groups_of u)
    then e_ok
    else e_user_noip

unfoldable pub do_user_ip : Server → Context → LoginCode
do_user_ip s c = ip_of_user s c (s.user_by_id c.userid)

abbrev pub enter_home : Server → Option ℕ → Context → Context × LoginCode
enter_home s none c = (c, e_pass_rejected)
enter_home s (some uid) c =
    (record c { userid = uid }, if s.enters_home uid then e_ok else e_user_no_home)

abbrev pub pass_of_user : Server → Bytes → Bytes → Context → Option User → Context × LoginCode
pass_of_user s username pass c none = (c, e_user_rejected)
pass_of_user s username pass c (some u) =
    if user_has_flag u flag_deleted
    then (c, e_user_deleted)
    else enter_home s (s.validate_pass username pass) c

unfoldable pub do_pass : Server → Bytes → Bytes → Context → Context × LoginCode
do_pass s username pass c = pass_of_user s username pass c (s.user_by_id c.userid)

-- ip_is_bnc of wzd_ip.c
unfoldable pub some_bnc : Server → Bytes → List Bytes → Bool
some_bnc s remote [] = false
some_bnc s remote (bnc ∷ l) =
    ip_compare s.getipbyname s.gethostbyaddr remote bnc || some_bnc s remote l

unfoldable pub ip_is_bnc : Server → Bytes → Bool
ip_is_bnc s remote = elim s.bnc_list [ none ↦ false | some l ↦ some_bnc s remote l ]
