-- ===== src/Ip/Accepted.antt =====
-- libwzd-core/wzd_ip.c: which names and IPv4 addresses ip_parse_host accepts, and what it returns.
use wzdftpd.Base.{
  ℕ, zero, suc, ◌<◌, Bool, true, false, not, ◌&&◌, ◌||◌, [], ◌∷◌, ◌++◌, replicate, Option, none,
  some, Bytes, ◌≡◌, refl, ◌∙◌, ap, arith, if◌then◌else◌, ◌==◌, length, take, is_digit, is_alnum,
  index_of, All, Bool-cases, inl, inr, ◌⊎◌,
}
use wzdftpd.Ip.Host.{
  hostname, ipv4_address, Host, string_is_ipv4, host_tail, string_is_hostname, max_numeric_ip_len,
  host, parse_name, parse_text, ip_parse_host,
}
use wzdftpd.Perm.Add.{c_string}

-- Only digits and dots.
abbrev pub IsDotted : Bytes → Type 0
IsDotted text = All (λ c. (is_digit c || c == b'.') ≡ true) text

-- Only letters, digits, dashes and dots.
abbrev pub HasNameBytes : Bytes → Type 0
HasNameBytes text = All (λ c. (is_alnum c || (c == b'-' || c == b'.')) ≡ true) text

-- The documented syntax of a host name: a letter or a digit, and then letters, digits, dashes and dots.
abbrev pub IsHostname : Bytes → Type 0
IsHostname [] = ⊥
IsHostname (c ∷ s) = (is_alnum c ≡ true) × HasNameBytes s

two_kinds :
    (a b r : Bool)
    → ((if not a && not b then false else r) ≡ true → ((b || a) ≡ true) × (r ≡ true))
      × ((b || a) ≡ true → r ≡ true → (if not a && not b then false else r) ≡ true)
two_kinds a b r = ground arith

three_kinds :
    (a b c r : Bool)
    → ((if not a && not b && not c then false else r) ≡ true
        → ((a || (b || c)) ≡ true) × (r ≡ true))
      × ((a || (b || c)) ≡ true → r ≡ true → (if not a && not b && not c then false else r) ≡ true)
three_kinds a b c r = ground arith

ipv4-IsDotted : (s : Bytes) → string_is_ipv4 s ≡ true → IsDotted s
unfolding string_is_ipv4
ipv4-IsDotted [] h = tt
ipv4-IsDotted (c ∷ s) h =
    let (a, r) = (two_kinds (c == b'.') (is_digit c) (string_is_ipv4 s)).0 h in
    (a, ipv4-IsDotted s r)

IsDotted-ipv4 : (s : Bytes) → IsDotted s → string_is_ipv4 s ≡ true
unfolding string_is_ipv4
IsDotted-ipv4 [] h = refl
IsDotted-ipv4 (c ∷ s) (a, r) =
    (two_kinds (c == b'.') (is_digit c) (string_is_ipv4 s)).1 a (IsDotted-ipv4 s r)

tail-HasNameBytes : (s : Bytes) → host_tail s ≡ true → HasNameBytes s
unfolding host_tail
tail-HasNameBytes [] h = tt
tail-HasNameBytes (c ∷ s) h =
    let (a, r) = (three_kinds (is_alnum c) (c == b'-') (c == b'.') (host_tail s)).0 h in
    (a, tail-HasNameBytes s r)

HasNameBytes-tail : (s : Bytes) → HasNameBytes s → host_tail s ≡ true
unfolding host_tail
HasNameBytes-tail [] h = refl
HasNameBytes-tail (c ∷ s) (a, r) =
    (three_kinds (is_alnum c) (c == b'-') (c == b'.') (host_tail s)).1 a (HasNameBytes-tail s r)

syntax-IsHostname : (s : Bytes) → string_is_hostname s ≡ true → IsHostname s
unfolding string_is_hostname
syntax-IsHostname [] h = cc h
syntax-IsHostname (c ∷ s) h = ground (arith, tail-HasNameBytes s)

IsHostname-hostname : (s : Bytes) → IsHostname s → string_is_hostname s ≡ true
unfolding string_is_hostname
IsHostname-hostname [] h = absurd h
IsHostname-hostname (c ∷ s) h = rw h.0 (HasNameBytes-tail s h.1)

absent : (b : ℕ) (s : Bytes) → All (λ c. (c == b) ≡ false) s → index_of b s ≡ none
unfolding index_of
absent b [] a = refl
absent b (c ∷ s) a = ground (arith, absent b s a.1, a.0)

-- A text without a slash that does not start with a bracket.
plain :
    (c : ℕ) (s : Bytes)
    → index_of b'/' (c ∷ s) ≡ none
    → (c == b'[') ≡ false
    → ip_parse_host (some (c ∷ s)) ≡ parse_name 0 (c ∷ s)
unfolding ip_parse_host parse_text
plain c s h n = rw (h, ip_parse_host) (rw (n, parse_text) refl)

-- What ip_parse_host does with a text without a slash and a bracket at its front: an IPv4 address if it
-- has only digits and dots, a host name if it has the documented syntax of one otherwise, and nothing
-- in all other cases.
abbrev pub Decided : Bytes → Option Host → Type 0
Decided text r =
    (IsDotted text × (r ≡ some (host ipv4_address 0 text)))
    ⊎ ((¬ IsDotted text) × IsHostname text × (r ≡ some (host hostname 0 text)))
    ⊎ ((¬ IsDotted text) × (¬ IsHostname text) × (r ≡ none))

not_true : (b : Bool) → b ≡ false → ¬ (b ≡ true)
not_true b h k = cc

parse_name-Decided : (text : Bytes) → Decided text (parse_name 0 text)
parse_name-Decided text = elim (Bool-cases (string_is_ipv4 text)) [
  | inl e ↦ inl (ipv4-IsDotted text e, rw e refl)
  | inr e ↦
      let undotted : ¬ IsDotted text =
        λ a. not_true (string_is_ipv4 text) e (IsDotted-ipv4 text a) in
      elim (Bool-cases (string_is_hostname text)) [
        | inl f ↦ inr (inl (undotted, syntax-IsHostname text f, rw (e, f) refl))
        | inr f ↦ inr (
            inr (
              undotted,
              (λ a. not_true (string_is_hostname text) f (IsHostname-hostname text a)),
              rw (e, f) refl,
            ))
      ]
]

-- A text without a slash whose first byte is no opening bracket is taken by ip_parse_host as an IPv4
-- address if it has only digits and dots; otherwise as a host name, if it is a letter or digit followed
-- by letters, digits, dashes and dots; and it is refused in all other cases.
pub ip_parse_host-Decided :
    (c : ℕ) (s : Bytes)
    → index_of b'/' (c ∷ s) ≡ none
    → (c == b'[') ≡ false
    → Decided (c ∷ s) (ip_parse_host (some (c ∷ s)))
ip_parse_host-Decided c s h n = rw (plain c s h n, Decided) (parse_name-Decided (c ∷ s))

host_byte :
    (c b : ℕ)
    → (is_alnum c || (c == b'-' || c == b'.')) ≡ true
    → (b ≡ b'/') ⊎ (b ≡ b'[') ⊎ (b ≡ 0)
    → (c == b) ≡ false
host_byte c b h k = ground arith

host_bytes :
    (s : Bytes) (b : ℕ)
    → (b ≡ b'/') ⊎ (b ≡ b'[') ⊎ (b ≡ 0)
    → HasNameBytes s
    → All (λ c. (c == b) ≡ false) s
host_bytes [] b k a = tt
host_bytes (c ∷ s) b k a = (host_byte c b a.0 k, host_bytes s b k a.1)

IsHostname-HasNameBytes : (s : Bytes) → IsHostname s → HasNameBytes s
IsHostname-HasNameBytes [] h = absurd h
IsHostname-HasNameBytes (c ∷ s) h = (ground (arith, h.0), h.1)

-- A text that leaves room for the terminator is what the array reads as.
c_string-take :
    (n m : ℕ) (s : Bytes)
    → length s < n
    → All (λ c. (c == 0) ≡ false) s
    → c_string (take n (s ++ replicate (suc m) 0)) ≡ s
unfolding c_string
c_string-take zero m s h a = absurd (omega arith)
c_string-take (suc n) m [] h a = refl
c_string-take (suc n) m (c ∷ s) h a =
    rw a.0 (ap (λ x. c ∷ x) (c_string-take n m s (omega arith) a.1))

-- A text of at most 63 bytes that is a letter or digit followed by letters, digits, dashes and dots is
-- accepted by ip_parse_host, without a netmask and as it is: its kind is IPv4 address if it has only
-- digits and dots, and host name otherwise.
pub ip_parse_host-hostname :
    (text : Bytes)
    → IsHostname text
    → length text < max_numeric_ip_len
    → (ip : Host) × (ip_parse_host (some text) ≡ some ip)
      × (ip.netmask ≡ 0)
      × (c_string ip.raw ≡ text)
      × (((ip.host_type ≡ ipv4_address) × IsDotted text)
          ⊎ ((ip.host_type ≡ hostname) × (¬ IsDotted text)))
ip_parse_host-hostname [] h n = absurd h
ip_parse_host-hostname (c ∷ s) h n =
    let a = IsHostname-HasNameBytes (c ∷ s) h in
    let run =
      plain c s (absent b'/' (c ∷ s) (host_bytes (c ∷ s) b'/' (inl refl) a))
        (host_byte c b'[' a.0 (inr (inl refl))) in
    let read = c_string-take 64 63 (c ∷ s) n (host_bytes (c ∷ s) 0 (inr (inr refl)) a) in
    elim (parse_name-Decided (c ∷ s)) [
      | inl (d, e) ↦ (host ipv4_address 0 (c ∷ s), run ∙ e, refl, read, inl (refl, d))
      | inr (inl (d, _, e)) ↦ (host hostname 0 (c ∷ s), run ∙ e, refl, read, inr (refl, d))
      | inr (inr (_, other, _)) ↦ absurd (other h)
    ]
