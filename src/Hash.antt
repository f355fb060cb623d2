-- ===== src/Hash.antt =====
-- libwzd-base/hash.c, and the part of libwzd-base/list.c under it: chained hash tables. The hash
-- and the comparison are functions that a table is created with, so both are parameters here, and
-- `same k k'` is `match(k, k') == 0`. A key is not NULL, but for chtbl_lookup, which tests it. Memory
-- is assumed to be there. The functions that release a key or a value and the triggers are named by
-- values of `F`: an operation returns the calls it makes.
pub mod Laws
pub mod Invariant
pub mod Lookup
pub mod Steps
pub mod Extract
pub mod Strings
use wzdftpd.Base.{
  ℕ, suc, ◌+◌, ◌-◌, ◌*◌, ◌%◌, Bool, true, false, not, ◌&&◌, List, [], ◌∷◌, ◌++◌, Option, none, some,
  Bytes, ◌≡◌, if◌then◌else◌, ltb, length, get_or, set, replicate,
}

-- What the functions return: -1, 0 and 1.
pub data Return : Type 0 where
  returns_minus_1 returns_0 returns_1 : Return

-- `frees_element` is the call that `free_key` gets in chtbl_remove: list_rem_next stores the address
-- of the element in the field `key`, before it is read.
pub data Call (K V F : Type 0) : Type 0 where
  triggers : F → K → Option V → Call K V F
  frees_key : F → K → Call K V F
  frees_element : F → Call K V F
  frees_data : F → Option V → Call K V F

pub record Element (K V F : Type 0) : Type 0 where
  pub key : K
  pub value : Option V
  pub trigger : Option F
  pub free_key : Option F
  pub free_element : Option F

abbrev pub Chain : Type 0 → Type 0 → Type 0 → Type 0
Chain K V F = List (Element K V F)

pub record Table (K V F : Type 0) : Type 0 where
  pub containers : ℕ
  pub table : List (Chain K V F)
  pub size : ℕ

-- A `char` is signed: from 128 on, it is converted to `unsigned` modulo 2 ^ 32.
unfoldable pub char_value : ℕ → ℕ
char_value c = if ltb c 128 then c * 7 else (c * 7 + 4294967296 - 1792)

unfoldable pub hash_from : ℕ → Bytes → ℕ
hash_from hashval [] = hashval
hash_from hashval (c ∷ cs) = hash_from ((char_value c + hashval) % 4294967296 % 781) cs

unfoldable pub hash_str : Bytes → ℕ
hash_str key = hash_from 0 key

abbrev pub is_some {ℓ} : {A : Type ℓ} → Option A → Bool
is_some none = false
is_some (some a) = true

abbrev pub or_old {ℓ} : {A : Type ℓ} → Option A → Option A → Option A
or_old none old = old
or_old (some a) old = some a

abbrev pub with_value : {K V F : Type 0} → Element K V F → Option V → Element K V F
with_value e v = record {
  key = e.key;
  value = v;
  trigger = e.trigger;
  free_key = e.free_key;
  free_element = e.free_element;
}

module _ {K V F : Type 0} where
  unfoldable pub chtbl_init : ℕ → Table K V F
  chtbl_init containers = record {
    containers = containers;
    table = replicate containers [];
    size = 0;
  }

  abbrev pub call_trigger : Option F → K → Option V → List (Call K V F)
  call_trigger none k v = []
  call_trigger (some f) k v = triggers f k v ∷ []

  abbrev pub call_free_key : Option F → K → List (Call K V F)
  call_free_key none k = []
  call_free_key (some f) k = frees_key f k ∷ []

  abbrev pub call_free_removed : Option F → List (Call K V F)
  call_free_removed none = []
  call_free_removed (some f) = frees_element f ∷ []

  abbrev pub call_free_data : Option F → Option V → List (Call K V F)
  call_free_data none v = []
  call_free_data (some f) v = frees_data f v ∷ []

  -- `list_rem_next(list, 0, ..)` until the list is empty, for one container
  unfoldable pub destroy_chain : Chain K V F → List (Call K V F)
  destroy_chain [] = []
  destroy_chain (e ∷ c) =
      call_free_key e.free_key e.key ++ call_free_data e.free_element e.value ++ destroy_chain c

  unfoldable pub destroy_chains : List (Chain K V F) → List (Call K V F)
  destroy_chains [] = []
  destroy_chains (c ∷ cs) = destroy_chain c ++ destroy_chains cs

  unfoldable pub chtbl_destroy : Table K V F → Table K V F × List (Call K V F)
  chtbl_destroy htab = (record { containers = 0; table = []; size = 0 }, destroy_chains htab.table)

  -- The first element of a container that a test accepts: its data is not NULL.
  unfoldable pub search_chain : (V → Bool) → Chain K V F → Option V
  search_chain test [] = none
  search_chain test (e ∷ c) = elim e.value [
    | some v ↦ if test v then some v else search_chain test c
    | none ↦ search_chain test c
  ]

  unfoldable pub search_chains : (V → Bool) → List (Chain K V F) → Option V
  search_chains test [] = none
  search_chains test (c ∷ cs) = elim (search_chain test c) [
    | some v ↦ some v
    | none ↦ search_chains test cs
  ]

  -- `test` is the match function at its second argument.
  unfoldable pub chtbl_search : Table K V F → (V → Bool) → Option V
  chtbl_search htab test = search_chains test htab.table

  module _ (same : K → K → Bool) where
    unfoldable pub find : K → Chain K V F → Option (Element K V F)
    find k [] = none
    find k (e ∷ c) = if same k e.key then some e else find k c

    unfoldable pub erase : K → Chain K V F → Chain K V F
    erase k [] = []
    erase k (e ∷ c) = if same k e.key then c else e ∷ erase k c

    unfoldable pub assign : K → Option V → Chain K V F → Chain K V F
    assign k v [] = []
    assign k v (e ∷ c) =
        if same k e.key then with_value e (or_old v e.value) ∷ c else e ∷ assign k v c

  module _ (h : K → ℕ) (same : K → K → Bool) where
    -- `h(key) % containers`
    abbrev pub index : Table K V F → K → ℕ
    index htab k = h k % htab.containers

    abbrev pub chain_at : Table K V F → ℕ → Chain K V F
    chain_at htab i = get_or htab.table i []

    -- The return value and the `*data` that the caller gets.
    unfoldable pub chtbl_lookup : Table K V F → Option K → Return × Option V
    chtbl_lookup htab none = (returns_minus_1, none)
    chtbl_lookup htab (some k) = elim (find same k (chain_at htab (index htab k))) [
      | some e ↦ (returns_0, e.value)
      | none ↦ (returns_1, none)
    ]

    abbrev pub insert_element : Table K V F → Element K V F → Table K V F
    insert_element htab e =
        let i = index htab e.key in
        record {
          containers = htab.containers;
          table = set htab.table i (e ∷ chain_at htab i);
          size = suc htab.size;
        }

    -- The element that chtbl_insert allocates is the argument.
    unfoldable pub chtbl_insert : Table K V F → Element K V F → Table K V F × Return
    unfolding chtbl_lookup
    chtbl_insert htab e = elim (chtbl_lookup htab (some e.key)).0 [
      | returns_0 ↦ (htab, returns_1)
      | _ ↦ (insert_element htab e, returns_0)
    ]

    unfoldable pub chtbl_remove : Table K V F → K → Table K V F × Return × List (Call K V F)
    chtbl_remove htab k =
        let i = index htab k in
        elim (find same k (chain_at htab i)) [
          | some e ↦ (
            record {
              containers = htab.containers;
              table = set htab.table i (erase same k (chain_at htab i));
              size = htab.size - 1;
            },
            returns_0,
            call_free_removed e.free_key ++ call_free_data e.free_element e.value,
          )
          | none ↦ (htab, returns_minus_1, [])
        ]

    unfoldable pub chtbl_change :
        Table K V F → K → Option V → Table K V F × Return × List (Call K V F)
    chtbl_change htab k v =
        let i = index htab k in
        elim (find same k (chain_at htab i)) [
          | some e ↦ (
            record {
              containers = htab.containers;
              table = set htab.table i (assign same k v (chain_at htab i));
              size = htab.size;
            },
            returns_0,
            call_trigger e.trigger e.key (or_old v e.value),
          )
          | none ↦ (htab, returns_1, [])
        ]

    unfoldable pub chtbl_insert_or_change :
        Table K V F → Element K V F → Table K V F × Return × List (Call K V F)
    unfolding chtbl_insert chtbl_change
    chtbl_insert_or_change htab e =
        let r = chtbl_insert htab e in
        elim r.1 [ returns_0 ↦ (r.0, returns_0, []) | _ ↦ chtbl_change r.0 e.key e.value ]

-- What the comparison and the hash owe each other.
pub record IsKeyed {K : Type 0} (h : K → ℕ) (same : K → K → Bool) : Type 0 where
  pub same_refl : (a : K) → same a a ≡ true
  pub same_symm : (a b : K) → same a b ≡ same b a
  pub same_congr : (a b c : K) → same a b ≡ true → same a c ≡ same b c
  pub hash_congr : (a b : K) → same a b ≡ true → h a ≡ h b
