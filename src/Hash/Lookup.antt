-- ===== src/Hash/Lookup.antt =====
-- libwzd-base/hash.c: each operation as the change of what chtbl_lookup answers for every key.
use wzdftpd.Base.{
  ℕ, suc, ◌-◌, ◌%◌, Bool, true, not, ◌||◌, [], ◌∷◌, ◌++◌, Option, none, some, ◌≡◌, refl, ap, sym,
  ◌∙◌, arith, if◌then◌else◌, get_or-set, Bool-cases, Option-cases, inl, inr, ◌==◌, ==_iff,
}
use wzdftpd.Hash.{
  Element, Chain, Table, Return, returns_minus_1, returns_0, returns_1, with_value, or_old, is_some,
  find, erase, assign, IsKeyed, index, chain_at, chtbl_lookup, chtbl_insert, insert_element,
  chtbl_remove, chtbl_change, chtbl_insert_or_change, call_free_removed, call_free_data,
  call_trigger,
}
use wzdftpd.Hash.Laws.{find-same, find-erase, find-assign}
use wzdftpd.Hash.Invariant.{IsValid, index-lt, here_unique, replaced}

module _ {K V F : Type 0} (h : K → ℕ) (same : K → K → Bool) where
  -- The element that a key leads to.
  abbrev pub element : Table K V F → K → Option (Element K V F)
  element htab k = find same k (chain_at h same htab (index h same htab k))

  -- What chtbl_lookup gives for such an element.
  abbrev pub answer : Option (Element K V F) → Return × Option V
  answer none = (returns_1, none)
  answer (some e) = (returns_0, e.value)

  pub chtbl_lookup-element :
      (htab : Table K V F) (k : K) → chtbl_lookup h same htab (some k) ≡ answer (element htab k)
  unfolding chtbl_lookup
  chtbl_lookup-element htab k = elim (Option-cases (element htab k)) [
    | inl f ↦ rw (f, chtbl_lookup) refl
    | inr (e, f) ↦ rw (f, chtbl_lookup) refl
  ]

  module _ (keyed : IsKeyed h same) where
    element-replaced :
        (htab : Table K V F) (k q : K) (c : Chain K V F) (size : ℕ)
        → IsValid h same htab
        → element (replaced h same htab k c size) q
          ≡ (if index h same htab k == index h same htab q then find same q c else element htab q)
    element-replaced htab k q c size v = ground (
      arith,
      get_or-set htab.table (index h same htab k) (index h same htab q) c []
          (index-lt h same htab k v),
    )

    same_index :
        (htab : Table K V F) (k q : K)
        → same k q ≡ true
        → (index h same htab k == index h same htab q) ≡ true
    same_index htab k q s = (==_iff _ _).1 (ap (λ x. x % htab.containers) (keyed.hash_congr k q s))

    element-update :
        (htab : Table K V F) (k q : K) (c : Chain K V F) (size : ℕ) (o : Option (Element K V F))
        → IsValid h same htab
        → find same q c
          ≡ (if same k q then o else find same q (chain_at h same htab (index h same htab k)))
        → element (replaced h same htab k c size) q ≡ (if same k q then o else element htab q)
    element-update htab k q c size o v e =
        ground (arith, element-replaced htab k q c size v, same_index htab k q)

    lookup-update :
        (htab : Table K V F) (k q : K) (c : Chain K V F) (size : ℕ) (o : Option (Element K V F))
        → IsValid h same htab
        → find same q c
          ≡ (if same k q then o else find same q (chain_at h same htab (index h same htab k)))
        → chtbl_lookup h same (replaced h same htab k c size) (some q)
          ≡ (if same k q then answer o else chtbl_lookup h same htab (some q))
    lookup-update htab k q c size o v e = ground (
      arith,
      chtbl_lookup-element (replaced h same htab k c size) q,
      chtbl_lookup-element htab q,
      element-update htab k q c size o v e,
    )

    find-head :
        (e : Element K V F) (q : K) (c : Chain K V F)
        → find same q (e ∷ c) ≡ (if same e.key q then some e else find same q c)
    unfolding find
    find-head e q c = ground (arith, keyed.same_symm q e.key)

    here-same :
        (htab : Table K V F) (k q : K)
        → same k q ≡ true
        → element htab k ≡ find same q (chain_at h same htab (index h same htab k))
    here-same htab k q s = find-same same keyed k q (chain_at h same htab (index h same htab k)) s

    insert-absent :
        (htab : Table K V F) (e : Element K V F)
        → element htab e.key ≡ none
        → chtbl_insert h same htab e ≡ (insert_element h same htab e, returns_0)
    unfolding chtbl_insert
    insert-absent htab e f = rw (f, chtbl_insert) refl

    insert-present :
        (htab : Table K V F) (e o : Element K V F)
        → element htab e.key ≡ some o
        → chtbl_insert h same htab e ≡ (htab, returns_1)
    unfolding chtbl_insert
    insert-present htab e o f = rw (f, chtbl_insert) refl

    remove-absent :
        (htab : Table K V F) (k : K)
        → element htab k ≡ none
        → chtbl_remove h same htab k ≡ (htab, returns_minus_1, [])
    unfolding chtbl_remove
    remove-absent htab k f = rw (f, chtbl_remove) refl

    remove-present :
        (htab : Table K V F) (k : K) (o : Element K V F)
        → element htab k ≡ some o
        → chtbl_remove h same htab k ≡ (
          replaced h same htab k
              (erase same k (chain_at h same htab (index h same htab k)))
              (htab.size - 1),
          returns_0,
          call_free_removed o.free_key ++ call_free_data o.free_element o.value,
        )
    unfolding chtbl_remove
    remove-present htab k o f = rw (f, chtbl_remove) refl

    change-absent :
        (htab : Table K V F) (k : K) (v : Option V)
        → element htab k ≡ none
        → chtbl_change h same htab k v ≡ (htab, returns_1, [])
    unfolding chtbl_change
    change-absent htab k v f = rw (f, chtbl_change) refl

    change-present :
        (htab : Table K V F) (k : K) (v : Option V) (o : Element K V F)
        → element htab k ≡ some o
        → chtbl_change h same htab k v ≡ (
          replaced h same htab k
              (assign same k v (chain_at h same htab (index h same htab k)))
              htab.size,
          returns_0,
          call_trigger o.trigger o.key (or_old v o.value),
        )
    unfolding chtbl_change
    change-present htab k v o f = rw (f, chtbl_change) refl

    lookup-same :
        (htab : Table K V F) (k q : K)
        → same k q ≡ true
        → chtbl_lookup h same htab (some q) ≡ answer (element htab k)
    lookup-same htab k q s =
        chtbl_lookup-element htab q
        ∙ ap answer (
            sym (
              here-same htab k q s
              ∙ ap (λ i. find same q (chain_at h same htab (i % htab.containers)))
                  (keyed.hash_congr k q s)))

    -- In a valid table, chtbl_insert refuses a key that has an element, with 1 and no change.
    -- Otherwise it returns 0, and the key, however it is spelled, leads to the new value, while any
    -- other key leads to what it led to.
    pub chtbl_insert-lookup :
        (htab : Table K V F) (e : Element K V F) (q : K)
        → IsValid h same htab
        → let r = chtbl_insert h same htab e in
          let found = is_some (element htab e.key) in
          (r.1 ≡ (if found then returns_1 else returns_0))
          × (chtbl_lookup h same r.0 (some q) ≡ (
              if found || not (same e.key q)
              then chtbl_lookup h same htab (some q)
              else (returns_0, e.value)))
    chtbl_insert-lookup htab e q v = elim (Option-cases (element htab e.key)) [
      | inl f ↦
          rw (insert-absent htab e f, f)
            (
              refl,
              ground (
                arith,
                lookup-update htab e.key q (e ∷ chain_at h same htab (index h same htab e.key))
                    (suc htab.size) (some e) v
                    (find-head e q (chain_at h same htab (index h same htab e.key))),
              ),
            )
      | inr (o, f) ↦ rw (insert-present htab e o f, f) (refl, refl)
    ]

    -- In a valid table, chtbl_remove returns 0 where the key has an element and -1 where it has
    -- none; after it the key, however it is spelled, leads to nothing, and any other key leads to what
    -- it led to.
    pub chtbl_remove-lookup :
        (htab : Table K V F) (k q : K)
        → IsValid h same htab
        → let r = chtbl_remove h same htab k in
          (r.1 ≡ (if is_some (element htab k) then returns_0 else returns_minus_1))
          × (chtbl_lookup h same r.0 (some q)
              ≡ (if same k q then (returns_1, none) else chtbl_lookup h same htab (some q)))
    chtbl_remove-lookup htab k q v = elim (Option-cases (element htab k)) [
      | inl f ↦ rw (remove-absent htab k f, f) (refl, ground (arith, lookup-same htab k q))
      | inr (o, f) ↦
          rw (remove-present htab k o f, f)
            (
              refl,
              lookup-update htab k q (erase same k (chain_at h same htab (index h same htab k)))
                  (htab.size - 1) none v
                  (find-erase same keyed k q (chain_at h same htab (index h same htab k))
                    (here_unique h same htab (index h same htab k) v)),
            )
    ]

    insert_or_change-present :
        (htab : Table K V F) (e o : Element K V F)
        → element htab e.key ≡ some o
        → chtbl_insert_or_change h same htab e ≡ chtbl_change h same htab e.key e.value
    unfolding chtbl_insert_or_change
    insert_or_change-present htab e o f =
        rw (insert-present htab e o f, chtbl_insert_or_change)
          (ap (λ r. chtbl_change h same r.0 e.key e.value) (insert-present htab e o f))

    find-assigned :
        (htab : Table K V F) (k q : K) (v : Option V) (o : Element K V F)
        → element htab k ≡ some o
        → find same q (assign same k v (chain_at h same htab (index h same htab k))) ≡ (
            if same k q
            then some (with_value o (or_old v o.value))
            else find same q (chain_at h same htab (index h same htab k)))
    find-assigned htab k q v o f = elim (Bool-cases (same k q)) [
      | inl s ↦
          rw
            (
              find-assign same keyed k q v (chain_at h same htab (index h same htab k)),
              sym (here-same htab k q s),
              f,
              s,
            )
            refl
      | inr s ↦
          rw (find-assign same keyed k q v (chain_at h same htab (index h same htab k)), s) refl
    ]

    -- In a valid table, chtbl_insert_or_change of a value that is not NULL returns 0; after it the
    -- key, however it is spelled, leads to the value, and any other key leads to what it led to. The
    -- trigger of the element that was there, if any, is called once, with that element's key and
    -- the new value.
    pub chtbl_insert_or_change-lookup :
        (htab : Table K V F) (e : Element K V F) (x : V) (q : K)
        → IsValid h same htab
        → e.value ≡ some x
        → let r = chtbl_insert_or_change h same htab e in
          (r.1 ≡ returns_0)
          × (chtbl_lookup h same r.0 (some q)
              ≡ (if same e.key q then (returns_0, some x) else chtbl_lookup h same htab (some q)))
          × (r.2 ≡ elim (element htab e.key) [
            | none ↦ []
            | some o ↦ call_trigger o.trigger o.key (some x)
          ])
    unfolding chtbl_insert_or_change
    chtbl_insert_or_change-lookup htab e x q v w = elim (Option-cases (element htab e.key)) [
      | inl f ↦
          rw (insert-absent htab e f, chtbl_insert_or_change, f)
            (
              refl,
              ground (
                arith,
                lookup-update htab e.key q (e ∷ chain_at h same htab (index h same htab e.key))
                    (suc htab.size) (some e) v
                    (find-head e q (chain_at h same htab (index h same htab e.key))),
              ),
              refl,
            )
      | inr (o, f) ↦
          rw (insert_or_change-present htab e o f, change-present htab e.key e.value o f, w, f)
            (
              refl,
              lookup-update htab e.key q
                  (assign same e.key (some x) (chain_at h same htab (index h same htab e.key)))
                  htab.size (some (with_value o (some x))) v
                  (find-assigned htab e.key q (some x) o f),
              refl,
            )
    ]
