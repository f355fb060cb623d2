-- ===== src/Hash/Invariant.antt =====
-- libwzd-base/hash.c: what holds of a table between two calls, and that every call keeps it.
use wzdftpd.Base.{
  ℕ, zero, suc, ◌+◌, ◌-◌, ◌*◌, ◌%◌, ◌<◌, Bool, List, [], ◌∷◌, Option, some, ◌≡◌, refl, ◌∙◌, arith,
  length, length-set, get_or, set, replicate, length-replicate, All, All-set, All-map, Option-cases,
  inl, inr,
}
use wzdftpd.Hash.{
  Element, Chain, Call, Table, Return, returns_0, find, erase, assign, IsKeyed, index, chain_at,
  chtbl_init, chtbl_lookup, chtbl_insert, chtbl_remove, chtbl_change, chtbl_insert_or_change,
}
use wzdftpd.Hash.Laws.{
  UniqueKeys, erase-UniqueKeys, assign-UniqueKeys, length-erase, length-assign, All-erase,
  All-assign,
}
use native.Mathlib.Nat.{mod-lt}

module _ {K V F : Type 0} where
  abbrev pub total : List (Chain K V F) → ℕ
  total [] = 0
  total (c ∷ cs) = length c + total cs

  total-set :
      (cs : List (Chain K V F)) (i : ℕ) (c : Chain K V F)
      → i < length cs
      → total (set cs i c) + length (get_or cs i []) ≡ total cs + length c
  total-set [] i c b = absurd (omega arith)
  total-set (x ∷ cs) zero c b = omega arith
  total-set (x ∷ cs) (suc i) c b = omega (arith, total-set cs i c (omega arith))

  total-replicate : (n : ℕ) (c : Chain K V F) → total (replicate n c) ≡ n * length c
  total-replicate zero c = omega arith
  total-replicate (suc n) c = ground (arith, total-replicate n c)

  All-get_or :
      (P : Chain K V F → Type 0) (cs : List (Chain K V F)) (i : ℕ)
      → P []
      → All P cs
      → P (get_or cs i [])
  All-get_or P [] i e a = e
  All-get_or P (c ∷ cs) zero e a = a.0
  All-get_or P (c ∷ cs) (suc i) e a = All-get_or P cs i e a.1

  All-replicate : (P : Chain K V F → Type 0) (n : ℕ) → P [] → All P (replicate n [])
  All-replicate P zero e = tt
  All-replicate P (suc n) e = (e, All-replicate P n e)

  module _ (h : K → ℕ) (same : K → K → Bool) where
    -- Every element of the containers from the i-th on stands where its hash says.
    abbrev pub PlacedFrom : ℕ → ℕ → List (Chain K V F) → Type 0
    PlacedFrom n i [] = Unit
    PlacedFrom n i (c ∷ cs) = All (λ e. h e.key % n ≡ i) c × PlacedFrom n (suc i) cs

    PlacedFrom-set :
        (n i j t : ℕ) (cs : List (Chain K V F)) (c : Chain K V F)
        → t ≡ i + j
        → PlacedFrom n i cs
        → All (λ e. h e.key % n ≡ t) c
        → PlacedFrom n i (set cs j c)
    PlacedFrom-set n i j t [] c w p a = tt
    PlacedFrom-set n i zero t (x ∷ cs) c w p a = (
      All-map (λ e. h e.key % n ≡ t) (λ e. h e.key % n ≡ i) c (λ e q. omega (arith, q, w)) a,
      p.1,
    )
    PlacedFrom-set n i (suc j) t (x ∷ cs) c w p a =
        (p.0, PlacedFrom-set n (suc i) j t cs c (omega arith) p.1 a)

    PlacedFrom-get_or :
        (n i j t : ℕ) (cs : List (Chain K V F))
        → t ≡ i + j
        → PlacedFrom n i cs
        → All (λ e. h e.key % n ≡ t) (get_or cs j [])
    PlacedFrom-get_or n i j t [] w p = tt
    PlacedFrom-get_or n i zero t (x ∷ cs) w p =
        All-map (λ e. h e.key % n ≡ i) (λ e. h e.key % n ≡ t) x (λ e q. omega (arith, q, w)) p.0
    PlacedFrom-get_or n i (suc j) t (x ∷ cs) w p =
        PlacedFrom-get_or n (suc i) j t cs (omega arith) p.1

    PlacedFrom-replicate :
        (n i m : ℕ) (c : Chain K V F)
        → ((j : ℕ) → All (λ e. h e.key % n ≡ j) c)
        → PlacedFrom n i (replicate m c)
    PlacedFrom-replicate n i zero c a = tt
    PlacedFrom-replicate n i (suc m) c a = (a i, PlacedFrom-replicate n (suc i) m c a)

    pub record IsValid (htab : Table K V F) : Type 0 where
      pub some_containers : 0 < htab.containers
      pub all_there : length htab.table ≡ htab.containers
      pub placed : PlacedFrom htab.containers 0 htab.table
      pub unique : All (UniqueKeys same) htab.table
      pub counted : htab.size ≡ total htab.table

    -- Replacing the container of a key by another one.
    abbrev pub replaced : Table K V F → K → Chain K V F → ℕ → Table K V F
    replaced htab k c size = record {
      containers = htab.containers;
      table = set htab.table (index h same htab k) c;
      size = size;
    }

    pub index-lt :
        (htab : Table K V F) (k : K) → IsValid htab → index h same htab k < length htab.table
    index-lt htab k v = omega (arith, v.all_there, mod-lt (h k) v.some_containers)

    pub here_unique :
        (htab : Table K V F) (i : ℕ) → IsValid htab → UniqueKeys same (chain_at h same htab i)
    here_unique htab i v = All-get_or (UniqueKeys same) htab.table i tt v.unique

    here_placed :
        (htab : Table K V F) (i : ℕ)
        → IsValid htab
        → All (λ e. h e.key % htab.containers ≡ i) (chain_at h same htab i)
    here_placed htab i v = PlacedFrom-get_or htab.containers 0 i i htab.table (omega arith) v.placed

    replaced-IsValid :
        (htab : Table K V F) (k : K) (c : Chain K V F) (size : ℕ)
        → IsValid htab
        → UniqueKeys same c
        → All (λ e. h e.key % htab.containers ≡ index h same htab k) c
        → size + length (chain_at h same htab (index h same htab k)) ≡ htab.size + length c
        → IsValid (replaced htab k c size)
    replaced-IsValid htab k c size v u p n = record {
      some_containers = v.some_containers;
      all_there = length-set htab.table (index h same htab k) c ∙ v.all_there;
      placed =
          PlacedFrom-set htab.containers 0 (index h same htab k) (index h same htab k) htab.table c
            (omega arith) v.placed p;
      unique = All-set (UniqueKeys same) htab.table (index h same htab k) c v.unique u;
      counted =
          omega
            (arith, n, v.counted, total-set htab.table (index h same htab k) c (index-lt htab k v));
    }

    pub chtbl_init-IsValid : (containers : ℕ) → 0 < containers → IsValid (chtbl_init containers)
    unfolding chtbl_init
    chtbl_init-IsValid n b = record {
      some_containers = b;
      all_there = length-replicate n [];
      placed = PlacedFrom-replicate n 0 n [] (λ j. tt);
      unique = All-replicate (UniqueKeys same) n tt;
      counted = omega (arith, total-replicate n []);
    }

    pub chtbl_insert-IsValid :
        (htab : Table K V F) (e : Element K V F)
        → IsValid htab
        → IsValid (chtbl_insert h same htab e).0
    unfolding chtbl_insert chtbl_lookup
    chtbl_insert-IsValid htab e v =
        elim (Option-cases (find same e.key (chain_at h same htab (index h same htab e.key)))) [
          | inl f ↦
              rw (f, chtbl_insert)
                (replaced-IsValid htab e.key (e ∷ chain_at h same htab (index h same htab e.key))
                  (suc htab.size) v (f, here_unique htab (index h same htab e.key) v)
                  (refl, here_placed htab (index h same htab e.key) v) (omega arith))
          | inr (o, f) ↦ rw (f, chtbl_insert) v
        ]

    erase-length :
        (htab : Table K V F) (k : K) (o : Element K V F) (c : Chain K V F)
        → find same k c ≡ some o
        → suc (length (erase same k c)) ≡ length c
    erase-length htab k o c f = ground (arith, length-erase same k c)

    module _ (keyed : IsKeyed h same) where
      pub chtbl_remove-IsValid :
          (htab : Table K V F) (k : K) → IsValid htab → IsValid (chtbl_remove h same htab k).0
      unfolding chtbl_remove
      chtbl_remove-IsValid htab k v =
          elim (Option-cases (find same k (chain_at h same htab (index h same htab k)))) [
            | inl f ↦ rw (f, chtbl_remove) v
            | inr (o, f) ↦
                rw (f, chtbl_remove)
                  (let c = chain_at h same htab (index h same htab k) in
                    replaced-IsValid htab k (erase same k c) (htab.size - 1) v
                      (erase-UniqueKeys same keyed k c (here_unique htab (index h same htab k) v))
                      (All-erase same (λ q. h q % htab.containers ≡ index h same htab k) k c
                        (here_placed htab (index h same htab k) v))
                      (omega (
                        arith,
                        v.counted,
                        total-set htab.table (index h same htab k) [] (index-lt htab k v),
                        erase-length htab k o c f,
                      )))
          ]

      pub chtbl_change-IsValid :
          (htab : Table K V F) (k : K) (value : Option V)
          → IsValid htab
          → IsValid (chtbl_change h same htab k value).0
      unfolding chtbl_change
      chtbl_change-IsValid htab k value v =
          elim (Option-cases (find same k (chain_at h same htab (index h same htab k)))) [
            | inl f ↦ rw (f, chtbl_change) v
            | inr (o, f) ↦
                rw (f, chtbl_change)
                  (let c = chain_at h same htab (index h same htab k) in
                    replaced-IsValid htab k (assign same k value c) htab.size v
                      (assign-UniqueKeys same keyed k value c
                        (here_unique htab (index h same htab k) v))
                      (All-assign same (λ q. h q % htab.containers ≡ index h same htab k) k value c
                        (here_placed htab (index h same htab k) v))
                      (omega (arith, length-assign same k value c)))
          ]

      or_change :
          (x : Return) (htab : Table K V F) (e : Element K V F)
          → IsValid htab
          → IsValid
              (elim x as (λ _. Table K V F × Return × List (Call K V F)) [
                | returns_0 ↦ (htab, returns_0, [])
                | _ ↦ chtbl_change h same htab e.key e.value
              ]).0
      or_change returns_0 htab e v = v
      or_change _ htab e v = chtbl_change-IsValid htab e.key e.value v

      pub chtbl_insert_or_change-IsValid :
          (htab : Table K V F) (e : Element K V F)
          → IsValid htab
          → IsValid (chtbl_insert_or_change h same htab e).0
      unfolding chtbl_insert_or_change
      chtbl_insert_or_change-IsValid htab e v =
          or_change (chtbl_insert h same htab e).1 (chtbl_insert h same htab e).0 e
            (chtbl_insert-IsValid htab e v)
