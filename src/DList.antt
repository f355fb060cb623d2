-- ===== src/DList.antt =====
-- libwzd-base/dlist.c: doubly linked lists on a heap. A pointer is an address, `none` is NULL, and a
-- data pointer is a value of any type. `memory` is what malloc returns.
pub mod Seg
pub mod Link
pub mod Splice
pub mod Refine
pub mod After
pub mod Before
pub mod Removed
pub mod Laws
pub mod Destroy
use wzdftpd.Base.{
  ℕ, zero, suc, ◌+◌, ◌-◌, Bool, true, false, not, ◌&&◌, List, [], ◌∷◌, Option, none, some,
  if◌then◌else◌, ltb, ◌==◌,
}

abbrev pub Ptr : Type 0
Ptr = ℕ

-- DListElmt
pub record DListElmt (D : Type 0) : Type 0 where
  pub data_of : D
  pub prev : Option Ptr
  pub next : Option Ptr

-- DList, without its functions `test` and `destroy`
pub record DList : Type 0 where
  pub size : ℕ
  pub head : Option Ptr
  pub tail : Option Ptr

abbrev pub is_null : Option Ptr → Bool
is_null none = true
is_null (some p) = false

abbrev pub points_to : Option Ptr → Ptr → Bool
points_to none p = false
points_to (some q) p = q == p

unfoldable pub dlist_init : DList
dlist_init = record { size = 0; head = none; tail = none }

abbrev pub Heap : Type 0 → Type 0
Heap D = Ptr → Option (DListElmt D)

-- A call that succeeds, one that returns -1, and a fault.
pub data Outcome (D : Type 0) : Type 0 where
  done : Heap D → DList → Outcome D
  refused fault : Outcome D

abbrev pub grown : DList → DList
grown l = record l { size = l.size + 1 }

abbrev pub with_tail : Bool → Ptr → DList → DList
with_tail b q l = if b then record l { tail = some q } else l

abbrev pub with_head : Bool → Ptr → DList → DList
with_head b q l = if b then record l { head = some q } else l

abbrev pub shrunk : DList → DList
shrunk l = record l { size = l.size - 1 }

abbrev pub new_tail : Option Ptr → Option Ptr → DList → DList
new_tail none p l = record l { tail = p }
new_tail (some b) p l = l

module _ {D : Type 0} where
  unfoldable pub write : Heap D → Ptr → Option (DListElmt D) → Heap D
  write h p n q = if q == p then n else h q

  abbrev pub elmt : D → Option Ptr → Option Ptr → DListElmt D
  elmt d p n = record { data_of = d; prev = p; next = n }

  -- `p->next = x` and `p->prev = x`; `none` is a fault.
  unfoldable pub set_next : Ptr → Option Ptr → Heap D → Option (Heap D)
  set_next p x h = elim (h p) [
    | none ↦ none
    | some n ↦ some (write h p (some (record n { next = x })))
  ]

  unfoldable pub set_prev : Ptr → Option Ptr → Heap D → Option (Heap D)
  set_prev p x h = elim (h p) [
    | none ↦ none
    | some n ↦ some (write h p (some (record n { prev = x })))
  ]

  abbrev pub finish : DList → Option (Heap D) → Outcome D
  finish l none = fault
  finish l (some h) = done h l

  abbrev pub and_then : Option (Heap D) → (Heap D → Option (Heap D)) → Option (Heap D)
  and_then none f = none
  and_then (some h) f = f h

  -- `p->prev = x` where `p` is not NULL
  abbrev pub set_prev_of : Option Ptr → Option Ptr → Heap D → Option (Heap D)
  set_prev_of none x h = some h
  set_prev_of (some p) x h = set_prev p x h

  abbrev pub set_next_of : Option Ptr → Option Ptr → Heap D → Option (Heap D)
  set_next_of none x h = some h
  set_next_of (some p) x h = set_next p x h

  abbrev pub alone : Heap D → Ptr → DList → D → Outcome D
  alone h q l d =
      done (write h q (some (elmt d none none)))
        (record { size = l.size + 1; head = some q; tail = some q })

  -- The new element `q` after the element `e`, which is `n`.
  abbrev pub after_elmt : Heap D → Ptr → DList → Ptr → Option (DListElmt D) → D → Outcome D
  after_elmt h q l e none d = fault
  after_elmt h q l e (some n) d = finish (grown (with_tail (is_null n.next) q l)) (
      and_then (set_prev_of n.next (some q) (write h q (some (elmt d (some e) n.next))))
        (set_next e (some q)))

  abbrev pub before_elmt : Heap D → Ptr → DList → Ptr → Option (DListElmt D) → D → Outcome D
  before_elmt h q l e none d = fault
  before_elmt h q l e (some n) d = finish (grown (with_head (is_null n.prev) q l)) (
      and_then (set_next_of n.prev (some q) (write h q (some (elmt d n.prev (some e)))))
        (set_prev e (some q)))

  unfoldable pub dlist_ins_next : Option Ptr → Heap D → DList → Option Ptr → D → Outcome D
  dlist_ins_next none h l element d = refused
  dlist_ins_next (some q) h l none d = if l.size == 0 then alone h q l d else refused
  dlist_ins_next (some q) h l (some e) d =
      if l.size == 0 then alone h q l d else after_elmt h q l e (h e) d

  unfoldable pub dlist_ins_prev : Option Ptr → Heap D → DList → Option Ptr → D → Outcome D
  dlist_ins_prev none h l element d = refused
  dlist_ins_prev (some q) h l none d = if l.size == 0 then alone h q l d else refused
  dlist_ins_prev (some q) h l (some e) d =
      if l.size == 0 then alone h q l d else before_elmt h q l e (h e) d

  -- `free(p)`
  abbrev pub freed : Ptr → Heap D → Option (Heap D)
  freed p h = some (write h p none)

  -- The element `e`, which is `n`, at the head, and elsewhere; a head has no element before it to read.
  abbrev pub take_head : Heap D → DList → Ptr → DListElmt D → Outcome D
  take_head h l e n =
      finish (shrunk (new_tail n.next none (record l { head = n.next })))
        (and_then (set_prev_of n.next none h) (freed e))

  abbrev pub take_inner : Heap D → DList → Ptr → DListElmt D → Option Ptr → Outcome D
  take_inner h l e n none = fault
  take_inner h l e n (some a) =
      finish (shrunk (new_tail n.next (some a) l))
        (and_then (and_then (set_next a n.next h) (set_prev_of n.next (some a))) (freed e))

  abbrev pub take_elmt : Heap D → DList → Ptr → Option (DListElmt D) → Outcome D
  take_elmt h l e none = fault
  take_elmt h l e (some n) =
      if points_to l.head e then take_head h l e n else take_inner h l e n n.prev

  unfoldable pub dlist_remove : Heap D → DList → Option Ptr → Outcome D
  dlist_remove h l none = refused
  dlist_remove h l (some e) = if l.size == 0 then refused else take_elmt h l e (h e)

  abbrev data_in : Option (DListElmt D) → Option D
  data_in none = none
  data_in (some n) = some n.data_of

  -- What dlist_remove stores in `*data`.
  unfoldable pub removed_data : Heap D → DList → Option Ptr → Option D
  removed_data h l none = none
  removed_data h l (some e) = if l.size == 0 then none else data_in (h e)

  abbrev prepend : D → Option (List D) → Option (List D)
  prepend d none = none
  prepend d (some ds) = some (d ∷ ds)

  abbrev pub next_round :
      Outcome D → Option D → (Heap D → DList → Option (List D)) → Heap D → DList → Option (List D)
  next_round (done h' l') none k h l = none
  next_round (done h' l') (some d) k h l = prepend d (k h' l')
  next_round refused d k h l = k h l
  next_round fault d k h l = none

  -- The loop of dlist_destroy on a list with a function `destroy`: the data that this is called on, in
  -- order; `none` for a fault or a loop that has not ended.
  unfoldable pub destroy_from : ℕ → Heap D → DList → Option (List D)
  destroy_from zero h l = if l.size == 0 then some [] else none
  destroy_from (suc fuel) h l =
      let rest =
        next_round (dlist_remove h l l.tail) (removed_data h l l.tail) (destroy_from fuel) h l in
      if l.size == 0 then some [] else rest

  unfoldable pub dlist_destroy : Heap D → DList → Option (List D)
  dlist_destroy h l = destroy_from l.size h l
