-- ===== src/Hash/Extract.antt =====
-- libwzd-base/hash.c: chtbl_extract. `accepts k` is `!match || !match(k, arg)`, and `sort` gives the
-- order of its two keys, the sign of the C function's result.
use wzdftpd.Base.{
  Bool, true, false, List, [], ◌∷◌, ◌++◌, map, append_assoc, append-nil, Option, none, some, ◌≡◌,
  refl, sym, ◌∙◌, arith, if◌then◌else◌, Bool-cases, inl, inr,
}
use Prim.Native.Nat.{Ordering}
use mathlib.Core.List.{Perm, perm_middle, perm_append_comm, map-append}
use mathlib.Core.List.Perm
use wzdftpd.Hash.{Element, Chain, Table}

abbrev pub is_gt : Ordering → Bool
is_gt Ordering.gt = true
is_gt _ = false

abbrev pub is_lt : Ordering → Bool
is_lt Ordering.lt = true
is_lt _ = false

lt-not_gt : (o : Ordering) → is_lt o ≡ true → is_gt o ≡ false
lt-not_gt Ordering.lt h = refl
lt-not_gt Ordering.eq h = refl
lt-not_gt Ordering.gt h = cc h

module _ {K V F : Type 0} where
  module _ (sort : K → K → Ordering) where
    -- the loop `while (element->next && sort(next, data) < 0)`, after the head
    unfoldable pub insert_after : Chain K V F → Element K V F → Chain K V F
    insert_after [] d = d ∷ []
    insert_after (e ∷ l) d = if is_lt (sort e.key d.key) then e ∷ insert_after l d else d ∷ e ∷ l

    unfoldable pub h_list_ins_sorted : Chain K V F → Element K V F → Chain K V F
    h_list_ins_sorted [] d = d ∷ []
    h_list_ins_sorted (e ∷ l) d =
        if is_gt (sort e.key d.key) then d ∷ e ∷ l else e ∷ insert_after l d

    -- the accepted elements of one container, inserted in a list
    unfoldable pub extract_chain : (K → Bool) → Chain K V F → Chain K V F → Chain K V F
    extract_chain accepts [] l = l
    extract_chain accepts (e ∷ c) l =
        extract_chain accepts c (if accepts e.key then h_list_ins_sorted l e else l)

    unfoldable pub extract_chains : (K → Bool) → List (Chain K V F) → Chain K V F → Chain K V F
    extract_chains accepts [] l = l
    extract_chains accepts (c ∷ cs) l = extract_chains accepts cs (extract_chain accepts c l)

  unfoldable pub list_chain : (K → Bool) → Chain K V F → List (Option V)
  list_chain accepts [] = []
  list_chain accepts (e ∷ c) =
      if accepts e.key then e.value ∷ list_chain accepts c else list_chain accepts c

  -- tail insertion, container by container
  unfoldable pub list_chains : (K → Bool) → List (Chain K V F) → List (Option V)
  list_chains accepts [] = []
  list_chains accepts (c ∷ cs) = list_chain accepts c ++ list_chains accepts cs

  unfoldable pub chtbl_extract :
      Table K V F → (K → Bool) → Option (K → K → Ordering) → List (Option V)
  chtbl_extract htab accepts none = list_chains accepts htab.table
  chtbl_extract htab accepts (some sort) =
      map (λ e. e.value) (extract_chains sort accepts htab.table [])

  -- The accepted elements of a container.
  abbrev pub kept : (K → Bool) → Chain K V F → Chain K V F
  kept accepts [] = []
  kept accepts (e ∷ c) = if accepts e.key then e ∷ kept accepts c else kept accepts c

  abbrev pub kept_all : (K → Bool) → List (Chain K V F) → Chain K V F
  kept_all accepts [] = []
  kept_all accepts (c ∷ cs) = kept accepts c ++ kept_all accepts cs

  list_chain-kept :
      (accepts : K → Bool) (c : Chain K V F)
      → list_chain accepts c ≡ map (λ e. e.value) (kept accepts c)
  unfolding list_chain
  list_chain-kept accepts [] = refl
  list_chain-kept accepts (e ∷ c) = ground (arith, list_chain-kept accepts c)

  list_chains-kept :
      (accepts : K → Bool) (cs : List (Chain K V F))
      → list_chains accepts cs ≡ map (λ e. e.value) (kept_all accepts cs)
  unfolding list_chains
  list_chains-kept accepts [] = refl
  list_chains-kept accepts (c ∷ cs) =
      rw (list_chain-kept accepts c, list_chains-kept accepts cs)
        (sym (map-append (λ e. e.value) (kept accepts c) (kept_all accepts cs)))

  module _ (sort : K → K → Ordering) where
    -- No element is greater than the next one.
    abbrev pub Ascending : Chain K V F → Type 0
    Ascending [] = Unit
    Ascending (e ∷ []) = Unit
    Ascending (e ∷ d ∷ l) = (is_gt (sort e.key d.key) ≡ false) × Ascending (d ∷ l)

    module _ (flip : (a b : K) → is_gt (sort a b) ≡ is_lt (sort b a)) where
      insert_after-Ascending :
          (e d : Element K V F) (l : Chain K V F)
          → is_gt (sort e.key d.key) ≡ false
          → Ascending (e ∷ l)
          → Ascending (e ∷ insert_after sort l d)
      unfolding insert_after
      insert_after-Ascending e d [] g a = (g, tt)
      insert_after-Ascending e d (x ∷ l) g a = elim (Bool-cases (is_lt (sort x.key d.key))) [
        | inl s ↦ rw s (a.0, insert_after-Ascending x d l (lt-not_gt (sort x.key d.key) s) a.1)
        | inr s ↦ rw s (g, (flip d.key x.key ∙ s, a.1))
      ]

      ins_sorted-Ascending :
          (l : Chain K V F) (d : Element K V F)
          → Ascending l
          → Ascending (h_list_ins_sorted sort l d)
      unfolding h_list_ins_sorted
      ins_sorted-Ascending [] d a = tt
      ins_sorted-Ascending (e ∷ l) d a = elim (Bool-cases (is_gt (sort e.key d.key))) [
        | inl s ↦ rw s (lt-not_gt (sort d.key e.key) (sym (flip e.key d.key) ∙ s), a)
        | inr s ↦ rw s (insert_after-Ascending e d l s a)
      ]

      extract_chain-Ascending :
          (accepts : K → Bool) (c l : Chain K V F)
          → Ascending l
          → Ascending (extract_chain sort accepts c l)
      unfolding extract_chain
      extract_chain-Ascending accepts [] l a = a
      extract_chain-Ascending accepts (e ∷ c) l a = elim (Bool-cases (accepts e.key)) [
        | inl s ↦ rw s (
            extract_chain-Ascending accepts c (h_list_ins_sorted sort l e)
              (ins_sorted-Ascending l e a))
        | inr s ↦ rw s (extract_chain-Ascending accepts c l a)
      ]

      extract_chains-Ascending :
          (accepts : K → Bool) (cs : List (Chain K V F)) (l : Chain K V F)
          → Ascending l
          → Ascending (extract_chains sort accepts cs l)
      unfolding extract_chains
      extract_chains-Ascending accepts [] l a = a
      extract_chains-Ascending accepts (c ∷ cs) l a =
          extract_chains-Ascending accepts cs (extract_chain sort accepts c l)
            (extract_chain-Ascending accepts c l a)

    insert_after-Perm : (l : Chain K V F) (d : Element K V F) → Perm (insert_after sort l d) (d ∷ l)
    unfolding insert_after
    insert_after-Perm [] d = Perm.refl _
    insert_after-Perm (e ∷ l) d = elim (Bool-cases (is_lt (sort e.key d.key))) [
      | inl s ↦ rw s (Perm.trans (Perm.cons e (insert_after-Perm l d)) (Perm.swap d e l))
      | inr s ↦ rw s (Perm.refl _)
    ]

    ins_sorted-Perm :
        (l : Chain K V F) (d : Element K V F) → Perm (h_list_ins_sorted sort l d) (d ∷ l)
    unfolding h_list_ins_sorted
    ins_sorted-Perm [] d = Perm.refl _
    ins_sorted-Perm (e ∷ l) d = elim (Bool-cases (is_gt (sort e.key d.key))) [
      | inl s ↦ rw s (Perm.refl _)
      | inr s ↦ rw s (Perm.trans (Perm.cons e (insert_after-Perm l d)) (Perm.swap d e l))
    ]

    extract_chain-Perm :
        (accepts : K → Bool) (c l : Chain K V F)
        → Perm (extract_chain sort accepts c l) (kept accepts c ++ l)
    unfolding extract_chain
    extract_chain-Perm accepts [] l = Perm.refl _
    extract_chain-Perm accepts (e ∷ c) l = elim (Bool-cases (accepts e.key)) [
      | inl s ↦ rw s (
          Perm.trans (extract_chain-Perm accepts c (h_list_ins_sorted sort l e)) (
            Perm.trans (Perm.append_left (kept accepts c) (ins_sorted-Perm l e))
              (perm_middle (kept accepts c) l)))
      | inr s ↦ rw s (extract_chain-Perm accepts c l)
    ]

    extract_chains-Perm :
        (accepts : K → Bool) (cs : List (Chain K V F)) (l : Chain K V F)
        → Perm (extract_chains sort accepts cs l) (kept_all accepts cs ++ l)
    unfolding extract_chains
    extract_chains-Perm accepts [] l = Perm.refl _
    extract_chains-Perm accepts (c ∷ cs) l =
        Perm.trans (extract_chains-Perm accepts cs (extract_chain sort accepts c l)) (
          Perm.trans (Perm.append_left (kept_all accepts cs) (extract_chain-Perm accepts c l)) (
            rw (sym (append_assoc (kept_all accepts cs) (kept accepts c) l))
              (Perm.append_right l (perm_append_comm (kept_all accepts cs) (kept accepts c)))))

    -- With a sort function whose sign is reversed when its arguments are, chtbl_extract returns the
    -- values of a rearrangement of the accepted elements in which no key is greater than the next
    -- one; without a sort function it returns the values of the accepted elements, container
    -- after container.
    pub chtbl_extract-sorted :
        (htab : Table K V F) (accepts : K → Bool)
        → ((a b : K) → is_gt (sort a b) ≡ is_lt (sort b a))
        → ((l : Chain K V F) × (chtbl_extract htab accepts (some sort) ≡ map (λ e. e.value) l)
            × Ascending l
            × Perm l (kept_all accepts htab.table))
          × (chtbl_extract htab accepts none ≡ map (λ e. e.value) (kept_all accepts htab.table))
    unfolding chtbl_extract
    chtbl_extract-sorted htab accepts flip = (
      (
        extract_chains sort accepts htab.table [],
        refl,
        extract_chains-Ascending flip accepts htab.table [] tt,
        rw (sym (append-nil (kept_all accepts htab.table)))
            (extract_chains-Perm accepts htab.table []),
      ),
      list_chains-kept accepts htab.table,
    )
