-- ===== src/Protocol.antt =====
-- libwzd-core/wzd_protocol.c: which command a line of the control connection names.
use wzdftpd.Base.{
  ℕ, ◌+◌, ◌-◌, not, Bool, true, false, ◌||◌, List, [], ◌∷◌, Option, none, some, Bytes,
  if◌then◌else◌, ◌==◌, ltb, leb, length, take, drop, str_eq, codes,
}
use wzdftpd.Match.{ascii_lower}

-- The identifiers that identify_token returns
pub data Token : Type 0 where
  tok_unknown tok_help tok_user tok_pass tok_auth tok_quit tok_type tok_mode tok_port : Token
  tok_pasv tok_pwd tok_noop tok_syst tok_cwd tok_cdup tok_list tok_nlst tok_mlst tok_mlsd : Token
  tok_mkd tok_rmd tok_retr tok_stor tok_appe tok_rest tok_mdtm tok_size tok_dele tok_abor : Token
  tok_pbsz tok_prot tok_cpsv tok_sscn tok_site tok_feat tok_allo tok_rnfr tok_rnto tok_idnt : Token
  tok_epsv tok_eprt tok_pret tok_xcrc tok_xmd5 tok_opts tok_moda tok_adat tok_mic : Token
  tok_nothing : Token

abbrev pub names : List (Bytes × Token)
names =
    (codes "help", tok_help)
    ∷ (codes "user", tok_user)
    ∷ (codes "pass", tok_pass)
    ∷ (codes "auth", tok_auth)
    ∷ (codes "quit", tok_quit)
    ∷ (codes "type", tok_type)
    ∷ (codes "mode", tok_mode)
    ∷ (codes "port", tok_port)
    ∷ (codes "pasv", tok_pasv)
    ∷ (codes "pwd", tok_pwd)
    ∷ (codes "noop", tok_noop)
    ∷ (codes "syst", tok_syst)
    ∷ (codes "cwd", tok_cwd)
    ∷ (codes "cdup", tok_cdup)
    ∷ (codes "list", tok_list)
    ∷ (codes "nlst", tok_nlst)
    ∷ (codes "mlst", tok_mlst)
    ∷ (codes "mlsd", tok_mlsd)
    ∷ (codes "mkd", tok_mkd)
    ∷ (codes "rmd", tok_rmd)
    ∷ (codes "retr", tok_retr)
    ∷ (codes "stor", tok_stor)
    ∷ (codes "appe", tok_appe)
    ∷ (codes "rest", tok_rest)
    ∷ (codes "mdtm", tok_mdtm)
    ∷ (codes "size", tok_size)
    ∷ (codes "dele", tok_dele)
    ∷ (codes "abor", tok_abor)
    ∷ (codes "pbsz", tok_pbsz)
    ∷ (codes "prot", tok_prot)
    ∷ (codes "cpsv", tok_cpsv)
    ∷ (codes "sscn", tok_sscn)
    ∷ (codes "site", tok_site)
    ∷ (codes "feat", tok_feat)
    ∷ (codes "allo", tok_allo)
    ∷ (codes "rnfr", tok_rnfr)
    ∷ (codes "rnto", tok_rnto)
    ∷ (codes "idnt", tok_idnt)
    ∷ (codes "epsv", tok_epsv)
    ∷ (codes "eprt", tok_eprt)
    ∷ (codes "pret", tok_pret)
    ∷ (codes "xcrc", tok_xcrc)
    ∷ (codes "xmd5", tok_xmd5)
    ∷ (codes "opts", tok_opts)
    ∷ (codes "moda", tok_moda)
    ∷ (codes "adat", tok_adat)
    ∷ (codes "mic", tok_mic)
    ∷ []

unfoldable pub token_named : Bytes → List (Bytes × Token) → Option Token
token_named token [] = none
token_named token ((n, t) ∷ rest) = if str_eq token n then some t else token_named token rest

-- The telnet sequences; the comparison with the one of four bytes reads the byte after `buf`, which is
-- taken to be a zero.
abbrev pub telnet : List (Bytes × Token)
telnet =
    (255 ∷ 242 ∷ [], tok_nothing)
    ∷ (255 ∷ 244 ∷ 255 ∷ 242 ∷ [], tok_nothing)
    ∷ (255 ∷ 244 ∷ [], tok_nothing)
    ∷ (255 ∷ [], tok_nothing)
    ∷ []

abbrev pub or_unknown : Option Token → Token
or_unknown none = tok_unknown
or_unknown (some t) = t

abbrev pub or_telnet : Bytes → Option Token → Token
or_telnet buf none = or_unknown (token_named buf telnet)
or_telnet buf (some t) = t

-- `buf` is the token, or its first four bytes.
unfoldable pub identify_token : Option Bytes → Token
identify_token none = tok_unknown
identify_token (some token) =
    let buf = ascii_lower (take 4 token) in
    if length token == 0
    then tok_unknown
    else or_telnet buf (if leb (length token) 4 then token_named buf names else none)

-- `while (*p && *p != ' ') p++;`: what is before, and from there on.
unfoldable pub first_word : Bytes → ℕ
first_word [] = 0
first_word (c ∷ s) = if c == b' ' then 0 else first_word s + 1

-- Whether the text starts with one blank at most.
abbrev pub one_blank : Bytes → Bool
one_blank [] = true
one_blank (c ∷ []) = true
one_blank (c ∷ d ∷ s) = not (d == b' ')

-- Whether _basic_check_ftp returns 0.
unfoldable pub basic_check_ftp : Option Bytes → Bool
basic_check_ftp none = false
basic_check_ftp (some command) =
    if ltb 4 (first_word command) then false else one_blank (drop (first_word command) command)

abbrev pub is_telnet : ℕ → Bool
is_telnet c = c == 255 || c == 244 || c == 242

unfoldable pub skip_telnet : Bytes → Bytes
skip_telnet [] = []
skip_telnet (c ∷ s) = if is_telnet c then skip_telnet s else c ∷ s

-- The text before the first carriage return or newline.
unfoldable pub first_line : Bytes → Bytes
first_line [] = []
first_line (c ∷ s) = if c == b'\r' || c == b'\n' then [] else c ∷ first_line s

abbrev pub without_telnet : Bytes → Bytes
without_telnet [] = []
without_telnet (c ∷ s) = if c == 255 then skip_telnet (c ∷ s) else c ∷ s

-- `buffer` is the text in the array of `size` bytes, WZD_BUFFER_LEN at most.
unfoldable pub cleanup_ftp_command : Bytes → ℕ → Bytes
cleanup_ftp_command buffer size = first_line (without_telnet (take (size - 1) buffer))
