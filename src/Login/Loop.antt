-- ===== src/Login/Loop.antt =====
-- libwzd-core/wzd_login.c: do_login_loop, compiled with TLS and without Kerberos. What the client sends
-- is a list of events, and its end is the end of the connection.
use wzdftpd.Base.{
  strtok, blanks, ℕ, ◌-◌, Bool, true, false, not, ◌&&◌, ◌||◌, List, [], ◌∷◌, ◌++◌, Option, none,
  some, Bytes, if◌then◌else◌, ◌==◌, ltb, length, take, str_case_eq, codes,
}
use wzdftpd.Protocol.{
  Token, tok_help, tok_user, tok_pass, tok_auth, tok_pbsz, tok_prot, tok_feat, tok_opts, tok_idnt,
  identify_token,
}
use wzdftpd.Login.{
  LoginCode, e_ok, e_user_rejected, e_user_deleted, e_user_idontexist, TlsType, tls_strict_explicit,
  tls_implicit, Server, Context, do_user, do_user_ip, do_pass, ip_is_bnc,
}

-- A line that the client sends, of BUFFER_LEN - 1 bytes at most, and the server at that time.
pub record Event : Type 0 where
  pub server : Server
  pub line : Bytes

-- What is fixed before the loop: whether unknown users are to be rejected, and the text that the array
-- `username` has from byte 255 on, which nothing initialises.
pub record Start : Type 0 where
  pub reject_nonexistant : Bool
  pub uninitialised : Bytes

-- The variables of the loop, and the codes that were sent to the client.
pub record Login : Type 0 where
  pub start : Start
  pub context : Context
  pub user_ok : Bool
  pub tls_ok : Bool
  pub username : Bytes
  pub replies : List ℕ

-- The loop goes on, or the function returns 0 or 1, or it reads through a NULL pointer.
pub data Next : Type 0 where
  goes_on : Login → Next
  returns_0 : Login → Next
  returns_1 : Login → Next
  crashes : Next

abbrev pub hard_username_length : ℕ
hard_username_length = 256

-- chop: the line without the carriage returns and newlines at its end.
abbrev pub is_end : ℕ → Bool
is_end c = c == b'\r' || c == b'\n'

abbrev pub keep : ℕ → Bytes → Bytes
keep c [] = if is_end c then [] else c ∷ []
keep c (d ∷ s) = c ∷ d ∷ s

unfoldable pub chop : Bytes → Bytes
chop [] = []
chop (c ∷ s) = keep c (chop s)

abbrev pub ends : Bytes
ends = b'\r' ∷ b'\n' ∷ []

abbrev pub reply : ℕ → Login → Login
reply code l = record l { replies = l.replies ++ code ∷ [] }

-- The code that goes with an error of do_user; `none` where the loop takes it as accepted.
abbrev pub refusal : Bool → LoginCode → Option ℕ
refusal reject e_ok = none
refusal reject e_user_rejected = if reject then some 421 else none
refusal reject e_user_deleted = if reject then some 421 else none
refusal reject e_user_idontexist = some 501
refusal reject _ = some 421

abbrev pub is_ok : LoginCode → Bool
is_ok e_ok = true
is_ok _ = false

-- The text in `username` after `strncpy(username, name, 255)`: a longer name has no zero after it.
abbrev pub stored_name : Start → Bytes → Bytes
stored_name start name =
    if ltb (length name) (hard_username_length - 1)
    then name
    else take (hard_username_length - 1) name ++ start.uninitialised

abbrev pub accept_user : Bytes → Login → Login
accept_user name l = reply 331 (record l { username = stored_name l.start name; user_ok = true })

abbrev pub after_do_user : Server → Bytes → Login → Option ℕ → Next
after_do_user s name l (some code) = returns_1 (reply code l)
after_do_user s name l none =
    if is_ok (do_user_ip s l.context) then goes_on (accept_user name l) else returns_1 (reply 421 l)

abbrev pub on_user : Server → Login → Option Bytes → Next
on_user s l none = returns_1 (reply 421 l)
on_user s l (some name) =
    let (c, code) = do_user s name l.context in
    after_do_user s name (record l { context = c }) (refusal l.start.reject_nonexistant code)

abbrev pub is_strict : TlsType → Bool
is_strict tls_strict_explicit = true
is_strict _ = false

abbrev pub is_implicit : TlsType → Bool
is_implicit tls_implicit = true
is_implicit _ = false

abbrev pub on_pass : Server → Login → Option Bytes → Next
on_pass s l none = returns_1 (reply 421 l)
on_pass s l (some pass) =
    let (c, code) = do_pass s l.username pass l.context in
    let l' = record l { context = c } in
    if not (is_ok code)
    then returns_1 (reply 421 l')
    else (if is_strict s.tls_type && not l.tls_ok then returns_1 (reply 421 l') else returns_0 l')

abbrev pub announced : Server → Bytes → Login → Login
announced s token l =
    let l' = record l {
      context = record l.context {
        private_data = str_case_eq token (codes "SSL") || is_implicit s.tls_type;
      };
    } in
    if is_implicit s.tls_type then l' else reply 234 l'

abbrev pub on_auth : Server → Login → Option Bytes → Next
on_auth s l none = returns_1 (reply 421 l)
on_auth s l (some token) =
    let l' = announced s token l in
    if s.disable_tls
    then goes_on (reply 502 l)
    else (if s.tls_auth token
        then goes_on (record l' { tls_ok = true; context = record l'.context { tls = true } })
        else returns_1 (reply 431 l'))

abbrev pub on_prot : Login → Option Bytes → Next
on_prot l none = crashes
on_prot l (some token) =
    if str_case_eq (codes "P") token
    then goes_on (reply 200 (record l { context = record l.context { private_data = true } }))
    else (if str_case_eq (codes "C") token
        then goes_on (reply 200 (record l { context = record l.context { private_data = false } }))
        else goes_on (reply 550 l))

abbrev pub is_nil : Bytes → Bool
is_nil [] = true
is_nil (c ∷ s) = false

abbrev pub identified : Server → Login → Option Bytes → Option Bytes → Bytes → Next
identified s l none address rest = returns_1 (reply 501 l)
identified s l (some ident) none rest = returns_1 (reply 501 l)
identified s l (some ident) (some address) rest =
    if is_nil rest || not (s.resolves address)
    then returns_1 (reply 501 l)
    else goes_on (record l {
      context = record l.context { ident = some ident; idnt_address = some address };
    })

abbrev pub is_some : Option Bytes → Bool
is_some none = false
is_some (some s) = true

abbrev pub on_idnt : Server → Login → Bytes → Next
on_idnt s l rest =
    let (ident, rest1) = strtok (b'@' ∷ []) rest in
    let (address, rest2) = strtok (b':' ∷ []) rest1 in
    if is_some l.context.idnt_address || not (ip_is_bnc s l.context.ip)
    then returns_1 (reply 530 l)
    else identified s l ident address rest2

-- The switch. What FEAT and OPTS send is left out.
unfoldable pub dispatch : Token → Server → Login → Bytes → Next
dispatch tok_help s l rest = goes_on (reply 530 l)
dispatch tok_user s l rest =
    if l.user_ok then returns_1 (reply 421 l) else on_user s l (strtok ends rest).0
dispatch tok_pass s l rest =
    if not l.user_ok then returns_1 (reply 421 l) else on_pass s l (strtok ends rest).0
dispatch tok_auth s l rest = on_auth s l (strtok ends rest).0
dispatch tok_pbsz s l rest = goes_on (reply 200 l)
dispatch tok_prot s l rest = on_prot l (strtok ends rest).0
dispatch tok_feat s l rest = goes_on l
dispatch tok_opts s l rest = goes_on l
dispatch tok_idnt s l rest = on_idnt s l rest
dispatch _ s l rest = returns_1 (reply 530 l)

-- One round of the loop.
unfoldable pub login_step : Event → Login → Next
login_step e l =
    let (token, rest) = strtok blanks (chop e.line) in
    if is_nil (chop e.line) then goes_on l else dispatch (identify_token token) e.server l rest

abbrev pub then_ : Next → (Login → Next) → Next
then_ (goes_on l) next = next l
then_ (returns_0 l) next = returns_0 l
then_ (returns_1 l) next = returns_1 l
then_ crashes next = crashes

-- The loop; at the end of the connection it returns 1.
unfoldable pub do_login_loop : List Event → Login → Next
do_login_loop [] l = returns_1 l
do_login_loop (e ∷ es) l = then_ (login_step e l) (do_login_loop es)
