-- ===== src/Hash/Laws.antt =====
-- libwzd-base/hash.c: one container, as the loops over its list see it.
use wzdftpd.Base.{
  ℕ, ◌+◌, Bool, true, [], ◌∷◌, Option, none, ◌≡◌, refl, arith, if◌then◌else◌, length, All,
  Bool-cases, inl, inr,
}
use mathlib.Core.Option.{map as map_option}
use wzdftpd.Hash.{Chain, with_value, or_old, is_some, find, erase, assign, IsKeyed}

module _ {K V F : Type 0} (same : K → K → Bool) where
  -- No key stands twice.
  abbrev pub UniqueKeys : Chain K V F → Type 0
  UniqueKeys [] = Unit
  UniqueKeys (e ∷ c) = (find same e.key c ≡ none) × UniqueKeys c

  module _ {h : K → ℕ} (keyed : IsKeyed h same) where
    pub find-same : (k q : K) (c : Chain K V F) → same k q ≡ true → find same k c ≡ find same q c
    unfolding find
    find-same k q [] s = refl
    find-same k q (e ∷ c) s = ground (arith, keyed.same_congr k q e.key s, find-same k q c s)

    pub find-erase :
        (k q : K) (c : Chain K V F)
        → UniqueKeys c
        → find same q (erase same k c) ≡ (if same k q then none else find same q c)
    unfolding find erase
    find-erase k q [] u = ground arith
    find-erase k q (e ∷ c) u = ground (
      arith,
      find-erase k q c u.1,
      keyed.same_congr k q e.key,
      keyed.same_symm q e.key,
      keyed.same_congr k e.key q,
      find-same e.key q c,
    )

    pub find-assign :
        (k q : K) (v : Option V) (c : Chain K V F)
        → find same q (assign same k v c) ≡ (
            if same k q
            then map_option (λ e. with_value e (or_old v e.value)) (find same q c)
            else find same q c)
    unfolding find assign
    find-assign k q v [] = ground arith
    find-assign k q v (e ∷ c) = ground (
      arith,
      find-assign k q v c,
      keyed.same_congr k q e.key,
      keyed.same_symm q e.key,
      keyed.same_congr k e.key q,
    )

    pub erase-UniqueKeys : (k : K) (c : Chain K V F) → UniqueKeys c → UniqueKeys (erase same k c)
    unfolding find erase
    erase-UniqueKeys k [] u = tt
    erase-UniqueKeys k (e ∷ c) u = elim (Bool-cases (same k e.key)) [
      | inl s ↦ rw s u.1
      | inr s ↦ rw s (rw (find-erase k e.key c u.1, s) u.0, erase-UniqueKeys k c u.1)
    ]

    pub assign-UniqueKeys :
        (k : K) (v : Option V) (c : Chain K V F) → UniqueKeys c → UniqueKeys (assign same k v c)
    unfolding find assign
    assign-UniqueKeys k v [] u = tt
    assign-UniqueKeys k v (e ∷ c) u = elim (Bool-cases (same k e.key)) [
      | inl s ↦ rw s u
      | inr s ↦ rw s (rw (find-assign k e.key v c, s) u.0, assign-UniqueKeys k v c u.1)
    ]

  pub length-erase :
      (k : K) (c : Chain K V F)
      → length (erase same k c) + (if is_some (find same k c) then 1 else 0) ≡ length c
  unfolding find erase
  length-erase k [] = refl
  length-erase k (e ∷ c) = ground (arith, length-erase k c)

  pub length-assign :
      (k : K) (v : Option V) (c : Chain K V F) → length (assign same k v c) ≡ length c
  unfolding assign
  length-assign k v [] = refl
  length-assign k v (e ∷ c) = ground (arith, length-assign k v c)

  module _ {κ} (P : K → Type κ) where
    pub All-erase :
        (k : K) (c : Chain K V F) → All (λ e. P e.key) c → All (λ e. P e.key) (erase same k c)
    unfolding erase
    All-erase k [] a = tt
    All-erase k (e ∷ c) a = elim (Bool-cases (same k e.key)) [
      | inl s ↦ rw s a.1
      | inr s ↦ rw s (a.0, All-erase k c a.1)
    ]

    pub All-assign :
        (k : K) (v : Option V) (c : Chain K V F)
        → All (λ e. P e.key) c
        → All (λ e. P e.key) (assign same k v c)
    unfolding assign
    All-assign k v [] a = tt
    All-assign k v (e ∷ c) a = elim (Bool-cases (same k e.key)) [
      | inl s ↦ rw s a
      | inr s ↦ rw s (a.0, All-assign k v c a.1)
    ]
