-- ===== src/Perm/Check.antt =====
-- libwzd-core/wzd_perm.c: what the entries of a command decide.
use wzdftpd.Base.{
  Bool, true, false, ◌&&◌, ◌||◌, List, [], ◌∷◌, ◌++◌, Option, none, some, Bytes, ◌≡◌, refl, ap, ◌⊎◌,
  inl, inr, arith, if◌then◌else◌, All, Option-cases,
}
use wzdftpd.Perm.{
  Cp, Entry, Perm, User, Answer, ok, denied, negate, entry_target, is_star, entry_applies,
  check_entries, perm_check_perm, find_same_entry, perm_find_create_entry,
}

-- Whether an entry decides for a user, and what it decides then.
unfoldable pub decides : User → Entry → Bool
decides user e = is_star (entry_target e.target) || entry_applies (entry_target e.target) e.cp user

abbrev pub decision : Entry → Answer
decision e = if negate e.target then denied else ok

abbrev pub any_decides : User → List Entry → Bool
any_decides user [] = false
any_decides user (e ∷ entries) = decides user e || any_decides user entries

entry_step :
    (applies negated : Bool) (rest : Answer)
    → (if applies then (if negated then denied else ok) else rest) ≡ ok
    → ((applies ≡ true) × (negated ≡ false)) ⊎ ((applies ≡ false) × (rest ≡ ok))
entry_step true true rest h = cc h
entry_step true false rest h = inl (refl, refl)
entry_step false n rest h = inr (refl, h)

-- If the entries of a command let a user execute it, then one of them applies to the user, is not
-- negated, and no entry before it applies to the user: nothing is allowed by default.
pub perm_check_perm-first :
    (entries : List Entry) (user : User) (name : Bytes)
    → perm_check_perm (some (record { command_name = name; entry_list = entries })) user ≡ ok
    → (before : List Entry) × (e : Entry) × (after : List Entry) × (entries ≡ before ++ e ∷ after)
      × (decides user e ≡ true)
      × (negate e.target ≡ false)
      × All (λ x. decides user x ≡ false) before
unfolding perm_check_perm check_entries decides
perm_check_perm-first [] user name h = cc h
perm_check_perm-first (e ∷ entries) user name h =
    elim (entry_step (decides user e) (negate e.target) (check_entries entries user) h) [
      | inl (a, n) ↦ ([], e, entries, refl, a, n, tt)
      | inr (a, r) ↦
          (let (before, x, after, l, d, n, w) = perm_check_perm-first entries user name r in
            (e ∷ before, x, after, ap (◌∷◌ e) l, d, n, (a, w)))
    ]

check-append :
    (entries : List Entry) (e : Entry) (user : User)
    → check_entries (entries ++ e ∷ []) user ≡ (
        if any_decides user entries
        then check_entries entries user
        else (if decides user e then decision e else denied))
unfolding check_entries decides
check-append [] e user = ground arith
check-append (x ∷ entries) e user = ground (arith, check-append entries e user)

check-none :
    (entries : List Entry) (user : User)
    → any_decides user entries ≡ false
    → check_entries entries user ≡ denied
unfolding check_entries decides
check-none [] user h = refl
check-none (x ∷ entries) user h = ground (arith, check-none entries user)

abbrev pub entry : Bytes → Cp → Entry
entry target cp = record { target = target; cp = cp }

abbrev pub is_none {ℓ} : {A : Type ℓ} → Option A → Bool
is_none none = true
is_none (some a) = false

-- Adding an entry to a command changes no decision that its entries took. Where none of them applies
-- to the user, who was denied, the new entry decides if it applies and was not there before, and the
-- user is still denied otherwise.
pub perm_find_create_entry-check :
    (target : Bytes) (cp : Cp) (perm : Perm) (user : User)
    → let new = entry target cp in
      let added = is_none (find_same_entry target cp perm.entry_list) in
      perm_check_perm (some (perm_find_create_entry target cp perm).0) user ≡ (
        if any_decides user perm.entry_list
        then perm_check_perm (some perm) user
        else (if added && decides user new then decision new else denied))
unfolding perm_check_perm perm_find_create_entry
perm_find_create_entry-check target cp perm user =
    elim (Option-cases (find_same_entry target cp perm.entry_list)) [
      | inl h ↦ rw (h, perm_find_create_entry) (check-append perm.entry_list (entry target cp) user)
      | inr (i, h) ↦
          rw (h, perm_find_create_entry) (ground (arith, check-none perm.entry_list user))
    ]
