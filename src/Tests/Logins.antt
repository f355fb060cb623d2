-- ===== src/Tests/Logins.antt =====
-- Sessions of the login loop, and the theorems on it at a concrete session.
use wzdftpd.Base.{
  strtok, skip_any, up_to, past, true, false, List, [], ◌∷◌, ◌++◌, none, some, Bytes, codes, ◌≡◌,
  refl, has_char, index_of, if◌then◌else◌, str_eq, replicate, inr, ap, ◌==◌,
}
use wzdftpd.User.{User}
use wzdftpd.Login.{
  Server, Context, check_user, with_userid, count_logins, some_group_full, check_tls_forced,
  do_user, do_user_ip, do_pass, e_ok, tls_explicit,
}
use wzdftpd.Login.Loop.{
  Event, Login, returns_0, login_step, dispatch, chop, crashes, do_login_loop, stored_name,
}
use wzdftpd.Login.Entry.{PathIn, do_login_loop-checked}
use wzdftpd.Login.Checks.{command, argument}
use wzdftpd.Match.{ascii_lower}
use wzdftpd.Perm.Add.{c_string}
use wzdftpd.Ip.{ip_list_check_ident, entry_accepts, ip_compare}
use wzdftpd.Protocol.{token_named, tok_user, tok_pass, tok_help, identify_token}
use wzdftpd.Login.Complete.{is_quiet, do_login_loop-lets_in}

abbrev bob : User
bob = record {
  uid = 7;
  backend_id = 0;
  username = codes "bob";
  userpass = [];
  rootpath = codes "/home";
  creator = 0;
  group_num = 0;
  groups = [];
  userperms = 0;
  flags = codes "I" ++ replicate 31 0;
  num_logins = 1;
  logins_per_ip = 0;
  ip_list = record { regexp = codes "10.0.0.5"; is_allowed = true } ∷ [];
  credits = 0;
  ratio = 0;
}

abbrev server : Server
server = record {
  user_by_id = λ uid. if uid == 7 then some bob else none;
  group_by_id = λ gid. none;
  validate_login = λ name. if str_eq name (codes "bob") then some 7 else none;
  validate_pass = λ name pass. if str_eq pass (codes "secret") then some 7 else none;
  enters_home = λ uid. true;
  tls_auth = λ token. true;
  resolves = λ address. true;
  getipbyname = λ host. none;
  gethostbyaddr = λ ip. none;
  site_closed = false;
  max_users = 10;
  reject_unknown_users = true;
  disable_tls = false;
  tls_type = tls_explicit;
  bnc_list = none;
  context_list = record { userid = 0; control_socket = 3; hostip = [] } ∷ [];
}

abbrev client : Context
client = record {
  userid = 0;
  control_socket = 3;
  hostip = [];
  ip = codes "10.0.0.5";
  ident = none;
  idnt_address = none;
  tls = false;
  private_data = false;
}

abbrev start : Login
start = record {
  start = record { reject_nonexistant = true; uninitialised = [] };
  context = client;
  user_ok = false;
  tls_ok = false;
  username = [];
  replies = [];
}

abbrev says : Bytes → Event
says l = record { server = server; line = l }

abbrev hello : List Event
hello = says (codes "help\r\n") ∷ []

abbrev asks : Event
asks = says (codes "USER bob\r\n")

abbrev answers : Event
answers = says (codes "PASS secret\r\n")

-- PROT without an argument, before any login.
prot_crashes : do_login_loop (says (codes "PROT") ∷ []) start ≡ crashes
unfolding do_login_loop login_step dispatch strtok skip_any up_to past chop identify_token
    token_named ascii_lower has_char str_eq
prot_crashes = refl

asks_user : (command asks ≡ tok_user) × (argument asks ≡ some (codes "bob"))
unfolding strtok skip_any up_to past chop identify_token token_named ascii_lower has_char str_eq
asks_user = (refl, refl)

gives_pass : (command answers ≡ tok_pass) × (argument answers ≡ some (codes "secret"))
unfolding strtok skip_any up_to past chop identify_token token_named ascii_lower has_char str_eq
gives_pass = (refl, refl)

says_help : command (says (codes "help\r\n")) ≡ tok_help
unfolding strtok skip_any up_to past chop identify_token token_named ascii_lower has_char str_eq
says_help = refl

user_accepted :
    ((do_user server (codes "bob") client).1 ≡ e_ok)
    × (do_user_ip server (do_user server (codes "bob") client).0 ≡ e_ok)
unfolding do_user do_user_ip do_pass check_user with_userid count_logins some_group_full
    check_tls_forced c_string ip_list_check_ident entry_accepts ip_compare index_of has_char str_eq
user_accepted = (refl, refl)

pass_accepted :
    (do_pass server (codes "bob") (codes "secret") (do_user server (codes "bob") client).0).1 ≡ e_ok
unfolding do_user do_pass check_user c_string has_char str_eq
pass_accepted = refl

let_in : (l' : Login) × (do_login_loop (asks ∷ answers ∷ []) start ≡ returns_0 l')
let_in =
    let (l', run, name, context) =
      do_login_loop-lets_in (codes "bob") (codes "secret") asks answers client [] [] [] start tt tt
        refl refl asks_user.0 asks_user.1 user_accepted.0 user_accepted.1 gives_pass.0 gives_pass.1
        pass_accepted refl in
    (l', run)

do_login_loop-lets_in_example :
    (l' : Login) × (do_login_loop (hello ++ (asks ∷ ([] ++ answers ∷ []))) start ≡ returns_0 l')
    × (l'.username ≡ stored_name start.start (codes "bob"))
    × (l'.context
        ≡ (do_pass server
            (stored_name start.start (codes "bob"))
            (codes "secret")
            (do_user server (codes "bob") client).0).0)
do_login_loop-lets_in_example =
    do_login_loop-lets_in (codes "bob") (codes "secret") asks answers client hello [] [] start
      (inr (ap is_quiet says_help), tt) tt refl refl asks_user.0 asks_user.1 user_accepted.0
      user_accepted.1 gives_pass.0 gives_pass.1 pass_accepted refl

do_login_loop-checked_example : PathIn (asks ∷ answers ∷ []) start let_in.0
do_login_loop-checked_example =
    do_login_loop-checked (asks ∷ answers ∷ []) start let_in.0 refl let_in.1
