-- ===== src/Ip/Check.antt =====
-- libwzd-core/wzd_ip.c: what the lists of addresses decide.
use wzdftpd.Base.{
  ◌≤◌, ◌<◌, Bool, true, false, ◌&&◌, ◌||◌, List, [], ◌∷◌, ◌++◌, Option, none, some, Bytes, ◌≡◌,
  refl, ap, ◌⊎◌, inl, inr, arith, if◌then◌else◌, ltb, leb, length, All, All-append, str_eq,
  index_of, Bool-cases, str_eq_iff,
}
use mathlib.Core.Option.{or_else}
use wzdftpd.Ip.{
  Entry, max_ip_length, is_empty, ip_compare, ip_add_check, ip_list_check, entry_accepts,
  ip_list_check_ident, ip_remove, ip_inlist,
}

-- What ip_add_check lets into a list.
abbrev pub IsValid : List Entry → Type 0
IsValid list = All (λ e. (1 ≤ length e.regexp) × (length e.regexp < max_ip_length)) list

abbrev pub is_some {ℓ} : {A : Type ℓ} → Option A → Bool
is_some none = false
is_some (some a) = true

not_empty : (s : Bytes) → 1 ≤ length s → is_empty s ≡ false
not_empty [] h = absurd (omega arith)
not_empty (c ∷ s) h = refl

decided :
    (empty matches x allowed : Bool) (rest : Option Bool)
    → (if empty then none else (if matches then some x else rest)) ≡ some allowed
    → (empty ≡ false)
      × (((matches ≡ true) × (x ≡ allowed)) ⊎ ((matches ≡ false) × (rest ≡ some allowed)))
decided true m x allowed rest h = cc h
decided false true x allowed rest h = (refl, inl (refl, cc h))
decided false false x allowed rest h = (refl, inr (refl, h))

ip_remove-All :
    (P : Entry → Type 0) (list : List Entry) (ip : Bytes) → All P list → All P (ip_remove list ip).0
unfolding ip_remove
ip_remove-All P [] ip a = tt
ip_remove-All P (e ∷ list) ip a = elim (Bool-cases (str_eq e.regexp ip)) [
  | inl h ↦ rw h a.1
  | inr h ↦ rw h (a.0, ip_remove-All P list ip a.1)
]

-- ip_remove takes the first entry with the given text out of the list, and nothing else, and
-- returns 0; without such an entry it leaves the list and returns -1.
pub ip_remove-first :
    (list : List Entry) (ip : Bytes)
    → ((ip_remove list ip ≡ (list, false)) × All (λ e. str_eq e.regexp ip ≡ false) list)
      ⊎ ((before : List Entry) × (e : Entry) × (after : List Entry) × (list ≡ before ++ e ∷ after)
          × (ip_remove list ip ≡ (before ++ after, true))
          × (e.regexp ≡ ip)
          × All (λ e. str_eq e.regexp ip ≡ false) before)
unfolding ip_remove
ip_remove-first [] ip = inl (refl, tt)
ip_remove-first (e ∷ list) ip = elim (Bool-cases (str_eq e.regexp ip)) [
  | inl h ↦ inr ([], e, list, refl, rw h refl, (str_eq_iff e.regexp ip).0 h, tt)
  | inr h ↦ elim (ip_remove-first list ip) [
    | inl (r, a) ↦ inl (rw (h, r) refl, (h, a))
    | inr (before, x, after, l, r, s, a) ↦
        inr (e ∷ before, x, after, ap (◌∷◌ e) l, rw (h, r) refl, s, (h, a))
  ]
]

module _ (getipbyname gethostbyaddr : Bytes → Option Bytes) where
  abbrev matches : Bytes → Bytes → Bool
  matches ip pattern = ip_compare getipbyname gethostbyaddr ip pattern

  abbrev check : List Entry → Bytes → Option Bool
  check list ip = ip_list_check getipbyname gethostbyaddr list ip

  check-append :
      (list : List Entry) (e : Entry) (ip : Bytes)
      → IsValid list
      → is_empty e.regexp ≡ false
      → check (list ++ e ∷ []) ip
        ≡ or_else (check list ip) (if matches ip e.regexp then some e.is_allowed else none)
  unfolding ip_list_check or_else
  check-append [] e ip v h = ground arith
  check-append (x ∷ list) e ip v h =
      ground (arith, check-append list e ip v.1 h, not_empty x.regexp v.0.0)

  -- From a list whose texts all have 1 to 127 bytes, ip_add_check returns 0 where the new text has
  -- 1 to 127 bytes and -1, without a change, where it has not; the texts of the new list all have
  -- 1 to 127 bytes; and ip_list_check on the new list decides what it decided, and where it decided
  -- nothing and the new text was added and matches the address, what the new entry says.
  pub ip_add_check-ip_list_check :
      (list : List Entry) (newip : Bytes) (allowed : Bool) (ip : Bytes)
      → IsValid list
      → let r = ip_add_check list newip allowed in
        (r.1 ≡ leb 1 (length newip) && ltb (length newip) max_ip_length)
        × IsValid r.0
        × (ip_list_check getipbyname gethostbyaddr r.0 ip
            ≡ or_else (ip_list_check getipbyname gethostbyaddr list ip) (
                if r.1 && ip_compare getipbyname gethostbyaddr ip newip
                then some allowed
                else none))
  unfolding ip_add_check or_else
  ip_add_check-ip_list_check list newip allowed ip v =
      elim (Bool-cases (ltb (length newip) 1 || leb max_ip_length (length newip))) [
        | inl h ↦ rw h (ground arith, v, ground arith)
        | inr h ↦ rw h (
          ground arith,
          All-append _ list (_ ∷ []) v ((ground arith, ground arith), tt),
          check-append list (record { regexp = newip; is_allowed = allowed }) ip v
              (not_empty newip (ground arith)),
        )
      ]

  -- ip_inlist accepts an address exactly where ip_list_check finds an entry for it, whether the entry
  -- allows it or denies it.
  ip_inlist-ip_list_check :
      (list : List Entry) (ip : Bytes)
      → ip_inlist getipbyname gethostbyaddr list ip
        ≡ is_some (ip_list_check getipbyname gethostbyaddr list ip)
  unfolding ip_inlist ip_list_check
  ip_inlist-ip_list_check [] ip = refl
  ip_inlist-ip_list_check (e ∷ list) ip = ground (arith, ip_inlist-ip_list_check list ip)

  -- On a list whose texts are not empty and hold no `@`, ip_list_check_ident decides as
  -- ip_list_check does, whatever the ident.
  ip_list_check_ident-plain :
      (list : List Entry) (ip : Bytes) (ident : Option Bytes)
      → All (λ e. (is_empty e.regexp ≡ false) × (index_of b'@' e.regexp ≡ none)) list
      → ip_list_check_ident getipbyname gethostbyaddr list ip ident
        ≡ ip_list_check getipbyname gethostbyaddr list ip
  unfolding ip_list_check_ident ip_list_check entry_accepts
  ip_list_check_ident-plain [] ip ident a = refl
  ip_list_check_ident-plain (e ∷ list) ip ident a =
      ground (arith, ip_list_check_ident-plain list ip ident a.1, a.0)

  -- Where ip_list_check decides, the first entry that matches the address decides, and no entry up to
  -- it is empty.
  pub ip_list_check-first :
      (list : List Entry) (ip : Bytes) (allowed : Bool)
      → ip_list_check getipbyname gethostbyaddr list ip ≡ some allowed
      → (before : List Entry) × (e : Entry) × (after : List Entry) × (list ≡ before ++ e ∷ after)
        × (e.is_allowed ≡ allowed)
        × (ip_compare getipbyname gethostbyaddr ip e.regexp ≡ true)
        × All
            (λ x.
              (is_empty x.regexp ≡ false)
              × (ip_compare getipbyname gethostbyaddr ip x.regexp ≡ false))
            before
  unfolding ip_list_check
  ip_list_check-first [] ip allowed h = cc h
  ip_list_check-first (e ∷ list) ip allowed h =
      let (n, m) =
        decided (is_empty e.regexp) (matches ip e.regexp) e.is_allowed allowed (check list ip) h in
      elim m [
        | inl (y, a) ↦ ([], e, list, refl, a, y, tt)
        | inr (y, r) ↦
            (let (before, x, after, l, a, z, w) = ip_list_check-first list ip allowed r in
              (e ∷ before, x, after, ap (◌∷◌ e) l, a, z, ((n, y), w)))
      ]
