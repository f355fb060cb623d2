-- ===== src/User.antt =====
-- libwzd-core/wzd_user.c, wzd_group.c: users and groups, their registries and the flags of a user.
pub mod Flags
use wzdftpd.Base.{
  ℕ, zero, suc, ◌+◌, ◌-◌, Bool, true, false, not, ◌&&◌, ◌||◌, List, [], ◌∷◌, ◌++◌, Option, none,
  some, Bytes, if◌then◌else◌, ◌==◌, ltb, leb, length, set, replicate, has_char, is_alnum, get_or,
  take, str_eq,
}
use wzdftpd.Ip.{Entry, ip_add_check}
use wzdftpd.Perm.Add.{c_string}
use wzdftpd.Registry.{
  Registry, Updated, invalid, register, update, unregister, get_by_id, get_by_name, get_list,
  find_free, free_registry,
}

abbrev pub max_flags_num : ℕ
max_flags_num = 32

abbrev pub max_groups_per_user : ℕ
max_groups_per_user = 32

abbrev pub hard_username_length : ℕ
hard_username_length = 256

abbrev pub max_pass_length : ℕ
max_pass_length = 48

abbrev pub wzd_max_path : ℕ
wzd_max_path = 1024

-- The fields that the modelled code reads. The names are C strings; `groups` and `flags` are the whole
-- arrays.
pub record User : Type 0 where
  pub uid : ℕ
  pub backend_id : ℕ
  pub username : Bytes
  pub userpass : Bytes
  pub rootpath : Bytes
  pub creator : ℕ
  pub group_num : ℕ
  pub groups : List ℕ
  pub userperms : ℕ
  pub flags : Bytes
  pub num_logins : ℕ
  pub logins_per_ip : ℕ
  pub ip_list : List Entry
  pub credits : ℕ
  pub ratio : ℕ

pub record WzdGroup : Type 0 where
  pub gid : ℕ
  pub backend_id : ℕ
  pub groupname : Bytes
  pub groupperms : ℕ
  pub num_logins : ℕ
  pub ratio : ℕ
  pub ip_list : List Entry
  pub defaultpath : Bytes

-- user_allocate: a new structure with what user_init_struct puts into it.
unfoldable pub user_init_struct : User
user_init_struct = record {
  uid = invalid;
  backend_id = 0;
  username = [];
  userpass = [];
  rootpath = [];
  creator = invalid;
  group_num = 0;
  groups = replicate max_groups_per_user 0;
  userperms = 0;
  flags = replicate max_flags_num 0;
  num_logins = 0;
  logins_per_ip = 0;
  ip_list = [];
  credits = 0;
  ratio = 0;
}

unfoldable pub group_init_struct : WzdGroup
group_init_struct = record {
  gid = invalid;
  backend_id = 0;
  groupname = [];
  groupperms = 4294967295;
  num_logins = 0;
  ratio = 0;
  ip_list = [];
  defaultpath = [];
}

abbrev pub with_backend : User → ℕ → User
with_backend u b = record u { backend_id = b }

abbrev pub group_with_backend : WzdGroup → ℕ → WzdGroup
group_with_backend g b = record g { backend_id = b }

unfoldable pub user_register : User → ℕ → Registry User → Registry User × Option ℕ
user_register = register (λ u. u.uid) with_backend

unfoldable pub user_update : ℕ → User → Bool → Registry User → Option (Registry User × Updated)
user_update = update (λ u. u.uid)

unfoldable pub user_unregister : ℕ → Registry User → Option (Registry User × Option User)
user_unregister = unregister

unfoldable pub user_free_registry : Registry User → Registry User
user_free_registry = free_registry

unfoldable pub user_get_by_id : Registry User → ℕ → Option User
user_get_by_id = get_by_id

unfoldable pub user_get_by_name : Registry User → Bytes → Option User
user_get_by_name = get_by_name (λ u. u.username)

unfoldable pub user_get_list : Registry User → List ℕ
user_get_list = get_list (λ u. u.uid)

unfoldable pub user_find_free_uid : Registry User → ℕ → ℕ
user_find_free_uid = find_free

unfoldable pub group_register : WzdGroup → ℕ → Registry WzdGroup → Registry WzdGroup × Option ℕ
group_register = register (λ g. g.gid) group_with_backend

unfoldable pub group_update :
    ℕ → WzdGroup → Bool → Registry WzdGroup → Option (Registry WzdGroup × Updated)
group_update = update (λ g. g.gid)

unfoldable pub group_unregister :
    ℕ → Registry WzdGroup → Option (Registry WzdGroup × Option WzdGroup)
group_unregister = unregister

unfoldable pub group_free_registry : Registry WzdGroup → Registry WzdGroup
group_free_registry = free_registry

unfoldable pub group_get_by_id : Registry WzdGroup → ℕ → Option WzdGroup
group_get_by_id = get_by_id

unfoldable pub group_get_by_name : Registry WzdGroup → Bytes → Option WzdGroup
group_get_by_name = get_by_name (λ g. g.groupname)

unfoldable pub group_get_list : Registry WzdGroup → List ℕ
group_get_list = get_list (λ g. g.gid)

unfoldable pub group_find_free_gid : Registry WzdGroup → ℕ → ℕ
group_find_free_gid = find_free

unfoldable pub user_ip_add : User → Bytes → Bool → User × Bool
user_ip_add u ip allowed =
    let (list, done) = ip_add_check u.ip_list ip allowed in (record u { ip_list = list }, done)

unfoldable pub group_ip_add : WzdGroup → Bytes → Bool → WzdGroup × Bool
group_ip_add g ip allowed =
    let (list, done) = ip_add_check g.ip_list ip allowed in (record g { ip_list = list }, done)

abbrev pub is_member : List ℕ → ℕ → Bool
is_member groups gid = has_char gid groups

-- The loop of group_list_users over the cells. It looks at all cells of the array of groups, used or
-- not, and the flag 0 asks for none.
unfoldable pub members : ℕ → ℕ → List (Option User) → List ℕ
members gid flag [] = []
members gid flag (none ∷ l) = members gid flag l
members gid flag (some u ∷ l) =
    if not (u.uid == invalid)
      && is_member (take max_groups_per_user u.groups) gid
      && (flag == 0 || has_char flag (c_string u.flags))
    then u.uid ∷ members gid flag l
    else members gid flag l

unfoldable pub group_list_users : Registry User → Registry WzdGroup → ℕ → ℕ → Option (List ℕ)
group_list_users users groups gid flag = elim (group_get_by_id groups gid) [
  | none ↦ none
  | some g ↦ some (members gid flag (take users.max users.slots))
]

-- What user_create stores as an error
pub data CreateError : Type 0 where
  e_param_null e_param_big e_param_exist e_param_invalid : CreateError

-- strncpy of at most n bytes into an array of zeros, as a C string.
abbrev pub strncpy_text : ℕ → Bytes → Bytes
strncpy_text n s = take n s

abbrev pub created : Bytes → Bytes → WzdGroup → User
created username pass g = record user_init_struct {
  username = strncpy_text (hard_username_length - 1) username;
  userpass = strncpy_text (max_pass_length - 1) pass;
  rootpath = strncpy_text (wzd_max_path - 1) g.defaultpath;
  userperms = g.groupperms;
  groups = set user_init_struct.groups 0 g.gid;
  group_num = if g.gid == invalid then 0 else 1;
}

pub data Created : Type 0 where
  new_user : User → Created
  refused : CreateError → Created

-- `none` stands for NULL. GetUserByName and GetGroupByName are the lookups `by_name` and `group_by_name`.
unfoldable pub user_create :
    (by_name : Bytes → Option User) (group_by_name : Bytes → Option WzdGroup)
    (username : Option Bytes) (pass : Bytes) (groupname : Option Bytes)
    → Created
user_create by_name group_by_name none pass groupname = refused e_param_null
user_create by_name group_by_name (some username) pass groupname =
    if length username == 0 || leb hard_username_length (length username)
    then refused e_param_big
    else elim (by_name username) [
      | some other ↦ refused e_param_exist
      | none ↦ elim groupname [
        | none ↦ refused e_param_null
        | some group ↦ elim (group_by_name group) [
          | none ↦ refused e_param_invalid
          | some g ↦ new_user (created username pass g)
        ]
      ]
    ]
