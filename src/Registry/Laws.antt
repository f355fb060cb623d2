-- ===== src/Registry/Laws.antt =====
-- What the operations on the array of users do to the lookups by number.
use wzdftpd.Base.{
  ℕ, zero, suc, ◌+◌, ◌-◌, ◌≤◌, ◌<◌, Bool, true, false, not, ◌&&◌, List, [], ◌∷◌, ◌++◌, Option, none,
  some, ◌≡◌, ◌≢◌, refl, ap, ◌∙◌, sym, ◌⊎◌, inl, inr, arith, if◌then◌else◌, ◌==◌, ltb, leb, length,
  get_or, set, take, replicate, Bool-cases, Option-cases, length-append, length-set,
  length-replicate, get_or-set, get_or-replicate,
}
use wzdftpd.Registry.{
  Registry, invalid, int_max, slot, extent, grow, put_in, register, get_by_id, free_from, find_free,
  is_free,
}

-- The array has one cell more than the maximum, or is NULL.
abbrev pub IsValid {ℓ} : {A : Type ℓ} → Registry A → Type 0
IsValid r = ((r.max ≡ 0) × (length r.slots ≡ 0)) ⊎ ((1 ≤ r.max) × (length r.slots ≡ suc r.max))

abbrev pub is_some {ℓ} : {A : Type ℓ} → Option A → Bool
is_some none = false
is_some (some a) = true

module _ {ℓ} {A : Type ℓ} where
  length-take : (n : ℕ) (xs : List A) → n ≤ length xs → length (take n xs) ≡ n
  length-take zero xs h = refl
  length-take (suc n) [] h = absurd (omega arith)
  length-take (suc n) (x ∷ xs) h = ap suc (length-take n xs (omega arith))

  get_or-append :
      (xs ys : List A) (i : ℕ) (d : A)
      → get_or (xs ++ ys) i d
        ≡ (if ltb i (length xs) then get_or xs i d else get_or ys (i - length xs) d)
  get_or-append [] ys i d = let e : i - 0 ≡ i = omega arith in rw e (ground arith)
  get_or-append (x ∷ xs) ys zero d = ground arith
  get_or-append (x ∷ xs) ys (suc i) d = ground (arith, get_or-append xs ys i d)

  get_or-take :
      (n : ℕ) (xs : List A) (i : ℕ) (d : A) → i < n → get_or (take n xs) i d ≡ get_or xs i d
  get_or-take zero xs i d h = absurd (omega arith)
  get_or-take (suc n) [] i d h = refl
  get_or-take (suc n) (x ∷ xs) zero d h = refl
  get_or-take (suc n) (x ∷ xs) (suc i) d h = get_or-take n xs i d (omega arith)

  get_or_beyond : (xs : List A) (i : ℕ) (d : A) → length xs ≤ i → get_or xs i d ≡ d
  get_or_beyond [] i d h = refl
  get_or_beyond (x ∷ xs) zero d h = absurd (omega arith)
  get_or_beyond (x ∷ xs) (suc i) d h = get_or_beyond xs i d (omega arith)

module _ {A : Type 0} (r : Registry A) (valid : IsValid r) where
  room : r.max ≤ length r.slots
  room = ground arith

  -- The cells of the extended array.
  abbrev extended : ℕ → List (Option A)
  extended uid = take r.max r.slots ++ replicate (suc (extent r.max uid)) none

  length-extended : (uid : ℕ) → length (extended uid) ≡ suc (r.max + extent r.max uid)
  length-extended uid = omega (
    arith,
    length-append (take r.max r.slots) (replicate (suc (extent r.max uid)) none),
    length-take r.max r.slots room,
    length-replicate {A = Option A} (extent r.max uid) none,
  )

  grow-IsValid : (uid : ℕ) → IsValid (grow uid r) × (uid < length (grow uid r).slots)
  unfolding grow
  grow-IsValid uid = elim (Bool-cases (leb r.max uid)) [
    | inl h ↦ rw h (inr (ground arith, length-extended uid), ground (arith, length-extended uid))
    | inr h ↦ rw h (valid, ground arith)
  ]

  slot-extended :
      (uid v : ℕ) → get_or (extended uid) v none ≡ (if v == r.max then none else slot r v)
  slot-extended uid v =
      get_or-append (take r.max r.slots) (replicate (suc (extent r.max uid)) none) v none
      ∙ rw (length-take r.max r.slots room) (elim (Bool-cases (ltb v r.max)) [
        | inl h ↦ rw h (get_or-take r.max r.slots v none (ground arith) ∙ ground arith)
        | inr h ↦
            rw (h, get_or-replicate {A = Option A} (suc (extent r.max uid)) (v - r.max) none)
              (ground (arith, get_or_beyond r.slots v none))
      ])

  -- The extension loses what stands at the old maximum, and nothing else.
  slot-grow :
      (uid v : ℕ) → slot (grow uid r) v ≡ (if leb r.max uid && (v == r.max) then none else slot r v)
  unfolding grow
  slot-grow uid v = elim (Bool-cases (leb r.max uid)) [
    | inl h ↦ rw h (slot-extended uid v)
    | inr h ↦ rw h refl
  ]

-- The lookup reads the cell, in a registry with its cells.
get_by_id-slot :
    {A : Type 0} (r : Registry A) (v : ℕ) → IsValid r → v ≢ invalid → get_by_id r v ≡ slot r v
unfolding get_by_id
get_by_id-slot r v valid h = ground (arith, get_or_beyond r.slots v none)

get_by_id-invalid :
    {A : Type 0} (r : Registry A) (v : ℕ) → (v == invalid) ≡ true → get_by_id r v ≡ none
unfolding get_by_id
get_by_id-invalid r v h = rw h refl

grow_below : {A : Type 0} (uid : ℕ) (r : Registry A) → uid < r.max → grow uid r ≡ r
unfolding grow
grow_below uid r h = ground arith

put_free :
    {A : Type 0} (uid : ℕ) (u : A) (r : Registry A) (c : Option A)
    → c ≡ none
    → put_in uid u r c ≡ (record r { slots = set r.slots uid (some u) }, some uid)
put_free uid u r none h = refl
put_free uid u r (some w) h = cc h

put_taken :
    {A : Type 0} (uid : ℕ) (u w : A) (r : Registry A) (c : Option A)
    → c ≡ some w
    → put_in uid u r c ≡ (r, none)
put_taken uid u w r none h = cc h
put_taken uid u w r (some x) h = refl

module _ {A : Type 0} (id : A → ℕ) (with_backend : A → ℕ → A) (u : A) (b : ℕ) (r : Registry A)
    (valid : IsValid r) (small : id u < int_max) where
  abbrev registered : Registry A × Option ℕ
  registered = register id with_backend u b r

  abbrev target : Registry A
  target = record (grow (id u) r) {
    slots = set (grow (id u) r).slots (id u) (some (with_backend u b));
  }

  registered-put_in :
      registered ≡ put_in (id u) (with_backend u b) (grow (id u) r) (slot (grow (id u) r) (id u))
  unfolding register
  registered-put_in = ground arith

  target-IsValid : IsValid target
  target-IsValid = ground (
    arith,
    (grow-IsValid r valid (id u)).0,
    length-set (grow (id u) r).slots (id u) (some (with_backend u b)),
  )

  target-get :
      (v : ℕ)
      → get_by_id target v ≡ (
          if v == id u
          then some (with_backend u b)
          else (if leb r.max (id u) && (v == r.max) then none else get_by_id r v))
  target-get v = elim (Bool-cases (v == invalid)) [
    | inl h ↦ rw (get_by_id-invalid target v h, get_by_id-invalid r v h) (ground arith)
    | inr h ↦
        rw
          (
            get_by_id-slot target v target-IsValid (ground arith),
            get_by_id-slot r v valid (ground arith),
            get_or-set (grow (id u) r).slots (id u) v (some (with_backend u b)) none
                (grow-IsValid r valid (id u)).1,
            slot-grow r valid (id u) v,
          )
          (ground arith)
  ]

  free_cell : (id u < r.max → get_by_id r (id u) ≡ none) → slot (grow (id u) r) (id u) ≡ none
  free_cell free = elim (Bool-cases (ltb (id u) r.max)) [
    | inl h ↦
        (let found : slot r (id u) ≡ none =
            sym (get_by_id-slot r (id u) valid (omega arith)) ∙ free (ground arith) in
          rw (slot-grow r valid (id u) (id u), found) (ground arith))
    | inr h ↦
        rw (slot-grow r valid (id u) (id u)) (ground (arith, get_or_beyond r.slots (id u) none))
  ]

  taken_below :
      (w : A)
      → id u < r.max
      → get_by_id r (id u) ≡ some w
      → register id with_backend u b r ≡ (r, none)
  taken_below w below got =
      let found : slot r (id u) ≡ some w =
        sym (get_by_id-slot r (id u) valid (omega arith)) ∙ got in
      rw (registered-put_in, grow_below (id u) r below)
        (put_taken (id u) (with_backend u b) w r (slot r (id u)) found)

  registered_free : (id u < r.max → get_by_id r (id u) ≡ none) → registered ≡ (target, some (id u))
  registered_free free =
      registered-put_in
      ∙ put_free (id u) (with_backend u b) (grow (id u) r) (slot (grow (id u) r) (id u))
          (free_cell free)

  -- For a number below INT_MAX, register returns -1 where the number is below the maximum and another
  -- entry has it, and the number otherwise, and keeps the array valid. After -1 the lookups give what
  -- they gave. After the number, it leads to the entry with its backend, and each other number leads
  -- to what it led to, but for the old maximum when the new number is not below it: the entry that
  -- stood there is lost.
  pub register-get_by_id :
      (v : ℕ)
      → let taken = ltb (id u) r.max && is_some (get_by_id r (id u)) in
        let (r', uid) = register id with_backend u b r in
        (uid ≡ (if taken then none else some (id u)))
        × IsValid r'
        × (get_by_id r' v ≡ (
            if not taken && v == id u
            then some (with_backend u b)
            else (if not taken && leb r.max (id u) && v == r.max then none else get_by_id r v)))
  register-get_by_id v = elim (Bool-cases (ltb (id u) r.max)) [
    | inl below ↦ elim (Option-cases (get_by_id r (id u))) [
      | inl free ↦
          rw (below, free, registered_free (λ _. free)) (refl, target-IsValid, target-get v)
      | inr (w, h) ↦ rw (below, h, taken_below w (ground arith) h) (refl, valid, refl)
    ]
    | inr beyond ↦
        rw (beyond, registered_free (λ h. absurd (ground arith)))
          (refl, target-IsValid, target-get v)
  ]

module _ {A : Type 0} (r : Registry A) where
  -- The search ends at a free cell or at the maximum.
  free_from_lem :
      (fuel uid : ℕ)
      → r.max - uid ≤ fuel
      → r.max ≤ invalid
      → (uid ≤ free_from fuel r uid)
        × ((is_free (slot r (free_from fuel r uid)) ≡ true) ⊎ (r.max ≤ free_from fuel r uid))
  unfolding free_from
  free_from_lem zero uid h m = (omega arith, inr (omega arith))
  free_from_lem (suc fuel) uid h m = elim (Bool-cases (ltb uid r.max)) [
    | inr out ↦ rw out (omega arith, inr (ground arith))
    | inl below ↦
        (let valid_uid : (uid == invalid) ≡ false = ground arith in
          elim (Bool-cases (is_free (slot r uid))) [
            | inl free ↦ rw (below, valid_uid, free) (omega arith, inl free)
            | inr used ↦
                (let (le, ends) = free_from_lem fuel (suc uid) (omega arith) m in
                  rw (below, valid_uid, used) (omega arith, ends))
          ])
  ]

no_entry_if_free : {A : Type 0} (c : Option A) → is_free c ≡ true → c ≡ none
no_entry_if_free none h = refl
no_entry_if_free (some a) h = cc h

-- In a valid registry, an entry whose number is what user_find_free_uid returns, from any start,
-- when it is below INT_MAX, is registered: register returns the number, and the number leads to the
-- entry with its backend.
pub register-find_free :
    {A : Type 0} (id : A → ℕ) (with_backend : A → ℕ → A) (u : A) (b : ℕ) (r : Registry A)
    (start : ℕ)
    → IsValid r
    → r.max ≤ invalid
    → id u ≡ find_free r start
    → id u < int_max
    → let (r', uid) = register id with_backend u b r in
      (uid ≡ some (id u)) × (get_by_id r' (id u) ≡ some (with_backend u b))
unfolding find_free
register-find_free id with_backend u b r start valid m e small =
    let from = if start == invalid then 0 else start in
    let (le, ends) = free_from_lem r (r.max - from) from (omega arith) m in
    let free : id u < r.max → get_by_id r (id u) ≡ none = λ h. elim ends [
      | inl f ↦
          get_by_id-slot r (id u) valid (omega arith) ∙ no_entry_if_free (slot r (id u)) (rw e f)
      | inr f ↦ absurd (omega arith)
    ] in
    rw (registered_free id with_backend u b r valid small free)
      (refl, target-get id with_backend u b r valid small (id u) ∙ ground arith)
