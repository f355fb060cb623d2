-- ===== src/Ip/Host.antt =====
-- libwzd-core/wzd_ip.c: ip_parse_host and the tests of the syntax of an address.
use wzdftpd.Base.{
  ℕ, suc, ◌+◌, ◌-◌, ◌*◌, ◌%◌, ◌^◌, Bool, true, false, not, ◌&&◌, ◌||◌, [], ◌∷◌, ◌++◌, replicate,
  Option, none, some, Bytes, if◌then◌else◌, ◌==◌, leb, length, take, drop, is_digit, is_alnum,
  skip_spaces, index_of,
}

-- enum host_type_t, without HT_UNKNOWN, which no result has
pub data HostType : Type 0 where
  hostname ipv4_address ipv6_reference : HostType

-- `raw` is the array of bytes.
pub record Host : Type 0 where
  pub host_type : HostType
  pub netmask : ℕ
  pub raw : Bytes

unfoldable pub string_is_ipv4 : Bytes → Bool
string_is_ipv4 [] = true
string_is_ipv4 (c ∷ s) =
    let rest = string_is_ipv4 s in if not (c == b'.') && not (is_digit c) then false else rest

abbrev pub is_xdigit : ℕ → Bool
is_xdigit c = is_digit c || (leb b'A' c && leb c b'F') || (leb b'a' c && leb c b'f')

unfoldable pub string_is_ipv6 : Bytes → Bool
string_is_ipv6 [] = true
string_is_ipv6 (c ∷ s) =
    let rest = string_is_ipv6 s in if not (c == b':') && not (is_xdigit c) then false else rest

unfoldable pub host_tail : Bytes → Bool
host_tail [] = true
host_tail (c ∷ s) =
    let rest = host_tail s in
    if not (is_alnum c) && not (c == b'-') && not (c == b'.') then false else rest

unfoldable pub string_is_hostname : Bytes → Bool
string_is_hostname [] = false
string_is_hostname (c ∷ s) = if not (is_alnum c) then false else host_tail s

-- The value of the digits at the front of a text, and what stands after them.
unfoldable pub leading_digits : ℕ → Bytes → ℕ × Bytes
leading_digits n [] = (n, [])
leading_digits n (c ∷ s) =
    let rest = leading_digits (n * 10 + (c - b'0')) s in if is_digit c then rest else (n, c ∷ s)

-- strtoul saturates at 2 ^ 64 - 1, and a minus sign negates modulo 2 ^ 64.
abbrev pub unsigned_long : Bool → ℕ → ℕ
unsigned_long negative v =
    if leb (2 ^ 64) v then 2 ^ 64 - 1 else (if negative then (2 ^ 64 - v) % 2 ^ 64 else v)

abbrev pub digits_value : Bool → Bytes → Option ℕ
digits_value negative [] = none
digits_value negative (c ∷ s) =
    let r = leading_digits 0 (c ∷ s) in
    if is_digit c && leb (length r.1) 0 then some (unsigned_long negative r.0 % 2 ^ 32) else none

abbrev pub signed_value : Bytes → Option ℕ
signed_value [] = none
signed_value (c ∷ s) =
    if c == b'-'
    then digits_value true s
    else (if c == b'+' then digits_value false s else digits_value false (c ∷ s))

-- `netmask = strtoul(slash + 1, &ptr, 10)`, an `unsigned int`; `none` where text is left over. A text
-- without digits leaves all of it, which is not empty.
unfoldable pub parse_netmask : Bytes → Option ℕ
parse_netmask text = signed_value (skip_spaces text)

abbrev pub max_numeric_ip_len : ℕ
max_numeric_ip_len = 64

-- wzd_strncpy into the zeroed array `raw`: of 64 bytes or more, it keeps the first 64, and no terminator.
abbrev pub host : HostType → ℕ → Bytes → Host
host t netmask start = record {
  host_type = t;
  netmask = netmask;
  raw = take max_numeric_ip_len (start ++ replicate max_numeric_ip_len 0);
}

-- The test of the text after `[` is made at `ptr`, where the `]` has just become the terminator.
abbrev pub parse_reference : ℕ → Bytes → Option Host
parse_reference netmask rest = elim (index_of b']' rest) [
  | none ↦ none
  | some i ↦
      if not (string_is_ipv6 []) then none else some (host ipv6_reference netmask (take i rest))
]

abbrev pub parse_name : ℕ → Bytes → Option Host
parse_name netmask text =
    if string_is_ipv4 text
    then some (host ipv4_address netmask text)
    else (if string_is_hostname text
        then (if not (netmask == 0) then none else some (host hostname netmask text))
        else none)

unfoldable pub parse_text : ℕ → Bytes → Option Host
parse_text netmask [] = parse_name netmask []
parse_text netmask (c ∷ s) =
    if c == b'[' then parse_reference netmask s else parse_name netmask (c ∷ s)

-- What stands before the slash, with the netmask after it.
abbrev pub with_netmask : Bytes → Bytes → Option Host
with_netmask text [] = none
with_netmask text (c ∷ s) = elim (parse_netmask (c ∷ s)) [
  | none ↦ none
  | some netmask ↦ parse_text netmask text
]

unfoldable pub ip_parse_host : Option Bytes → Option Host
ip_parse_host none = none
ip_parse_host (some []) = none
ip_parse_host (some (c ∷ s)) = elim (index_of b'/' (c ∷ s)) [
  | none ↦ parse_text 0 (c ∷ s)
  | some i ↦ with_netmask (take i (c ∷ s)) (drop (suc i) (c ∷ s))
]
