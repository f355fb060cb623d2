-- ===== src/Ip.antt =====
-- libwzd-core/wzd_ip.c, built without IPV6_SUPPORT: lists of addresses that are allowed or denied,
-- and the syntax of an address. The resolver is not the program's: `getipbyname` gives the four
-- bytes that socket_getipbyname writes for a name, and `gethostbyaddr` the `h_name` of four bytes.
pub mod Check
pub mod Host
pub mod Accepted
use wzdftpd.Base.{
  ℕ, suc, ◌+◌, Bool, true, false, ◌&&◌, ◌||◌, not, List, [], ◌∷◌, ◌++◌, Option, none, some, Bytes,
  if◌then◌else◌, ◌==◌, ltb, leb, length, take, drop, get_or, str_eq, has_char, index_of,
}
use wzdftpd.Match.{my_str_compare}

pub record Entry : Type 0 where
  pub regexp : Bytes
  pub is_allowed : Bool

-- MAX_IP_LENGTH of wzd_hardlimits.h
abbrev pub max_ip_length : ℕ
max_ip_length = 128

-- `strpbrk(s, "*?") != NULL`
abbrev pub has_wildcards : Bytes → Bool
has_wildcards s = has_char b'*' s || has_char b'?' s

-- The list after the call, and whether it returns 0: otherwise it returns -1.
unfoldable pub ip_add_check : List Entry → Bytes → Bool → List Entry × Bool
ip_add_check list newip is_allowed =
    if ltb (length newip) 1 || leb max_ip_length (length newip)
    then (list, false)
    else (list ++ record { regexp = newip; is_allowed = is_allowed } ∷ [], true)

-- The list after the call, and whether it returns 0.
unfoldable pub ip_remove : List Entry → Bytes → List Entry × Bool
ip_remove [] ip = ([], false)
ip_remove (e ∷ list) ip =
    let rest = ip_remove list ip in
    if str_eq e.regexp ip then (list, true) else (e ∷ rest.0, rest.1)

abbrev pub is_empty : Bytes → Bool
is_empty [] = true
is_empty (c ∷ s) = false

module _ (getipbyname gethostbyaddr : Bytes → Option Bytes) where
  abbrev pub same_address : Option Bytes → Option Bytes → Bool
  same_address (some a) (some b) = str_eq a b
  same_address _ _ = false

  abbrev pub name_matches : Option Bytes → Bytes → Bool
  name_matches none pattern = false
  name_matches (some h_name) pattern = my_str_compare h_name pattern

  abbrev pub pattern_matches : Bytes → Bytes → Bool
  pattern_matches ip pattern = elim (getipbyname ip) [
    | none ↦ false
    | some address ↦ my_str_compare ip pattern || name_matches (gethostbyaddr address) pattern
  ]

  -- With wildcards in `ip` alone, `ptr = ip; pattern = ip; ip = ptr;` compares `ip` with itself.
  unfoldable pub ip_compare : Bytes → Bytes → Bool
  ip_compare ip pattern =
      if str_eq ip pattern
      then true
      else (if not (has_wildcards ip) && not (has_wildcards pattern)
          then same_address (getipbyname ip) (getipbyname pattern)
          else (if has_wildcards ip && has_wildcards pattern
              then false
              else pattern_matches ip (if has_wildcards ip then ip else pattern)))

  -- `none` stands for the return value -1.
  unfoldable pub ip_list_check : List Entry → Bytes → Option Bool
  ip_list_check [] ip = none
  ip_list_check (e ∷ list) ip =
      let rest = ip_list_check list ip in
      if is_empty e.regexp
      then none
      else (if ip_compare ip e.regexp then some e.is_allowed else rest)

  -- Whether the part of an entry before its `@` accepts the ident.
  abbrev pub ident_accepts : Option Bytes → Bytes → Bool
  ident_accepts none ident_ref = str_eq ident_ref (b'*' ∷ [])
  ident_accepts (some ident) ident_ref = my_str_compare ident ident_ref

  unfoldable pub entry_accepts : Entry → Bytes → Option Bytes → Bool
  entry_accepts e ip ident = elim (index_of b'@' e.regexp) [
    | none ↦ ip_compare ip e.regexp
    | some i ↦ ident_accepts ident (take i e.regexp) && ip_compare ip (drop (suc i) e.regexp)
  ]

  unfoldable pub ip_list_check_ident : List Entry → Bytes → Option Bytes → Option Bool
  ip_list_check_ident [] ip ident = none
  ip_list_check_ident (e ∷ list) ip ident =
      let rest = ip_list_check_ident list ip ident in
      if entry_accepts e ip ident then some e.is_allowed else rest

  unfoldable pub ip_inlist : List Entry → Bytes → Bool
  ip_inlist [] ip = false
  ip_inlist (e ∷ list) ip =
      let rest = ip_inlist list ip in
      if is_empty e.regexp then false else (if ip_compare ip e.regexp then true else rest)
