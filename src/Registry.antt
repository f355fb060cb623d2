-- ===== src/Registry.antt =====
-- libwzd-core/wzd_user.c and wzd_group.c: the array in which the server finds its users by number, and
-- the same code for groups. `id` reads the number of an entry, `name` its name. `none` as a whole
-- result stands for a read outside the array.
pub mod Laws
use wzdftpd.Base.{
  ℕ, zero, suc, ◌+◌, ◌-◌, Bool, true, false, not, ◌&&◌, ◌||◌, List, [], ◌∷◌, ◌++◌, Option, none,
  some, Bytes, if◌then◌else◌, ◌==◌, ltb, leb, length, get_elem?, get_or, set, take, replicate,
  str_eq,
}

-- _max_uid and _user_array. The array is NULL where the list is empty.
pub record Registry {ℓ} (A : Type ℓ) : Type ℓ where
  pub max : ℕ
  pub slots : List (Option A)

-- (uid_t)-1
abbrev pub invalid : ℕ
invalid = 4294967295

abbrev pub int_max : ℕ
int_max = 2147483647

-- What user_update returns: 0, -1, -2 and -3.
pub data Updated : Type 0 where
  done bad_id no_entry taken : Updated

abbrev pub extent : ℕ → ℕ → ℕ
extent max uid = if leb (max + 255) uid then uid - max else 256

module _ {ℓ} {A : Type ℓ} where
  abbrev pub empty : Registry A
  empty = record { max = 0; slots = [] }

  abbrev pub slot : Registry A → ℕ → Option A
  slot r i = get_or r.slots i none

  -- The realloc and the memset of the cells from the old maximum on.
  unfoldable pub grow : ℕ → Registry A → Registry A
  grow uid r =
      if leb r.max uid
      then (record r {
        max = r.max + extent r.max uid;
        slots = take r.max r.slots ++ replicate (suc (extent r.max uid)) none;
      })
      else r

  abbrev pub put_in : ℕ → A → Registry A → Option A → Registry A × Option ℕ
  put_in uid u r (some other) = (r, none)
  put_in uid u r none = (record r { slots = set r.slots uid (some u) }, some uid)

  -- The registry and the number that is returned, `none` for -1.
  unfoldable pub register :
      (id : A → ℕ) (with_backend : A → ℕ → A) → A → ℕ → Registry A → Registry A × Option ℕ
  register id with_backend u backend_id r =
      if id u == invalid
      then (r, none)
      else (if leb int_max (id u)
          then (r, none)
          else put_in (id u) (with_backend u backend_id) (grow (id u) r)
              (slot (grow (id u) r) (id u)))

  abbrev pub move : ℕ → ℕ → A → Registry A → Option (Option A) → Option (Registry A × Updated)
  move uid to u r none = none
  move uid to u r (some (some other)) = some (r, taken)
  move uid to u r (some none) =
      some (record r { slots = set (set r.slots to (some u)) uid none }, done)

  -- `same` is the comparison of the pointers `_user_array[uid]` and `new_user`.
  abbrev pub replace :
      (id : A → ℕ) → ℕ → A → Bool → Registry A → Option (Option A) → Option (Registry A × Updated)
  replace id uid u same r none = none
  replace id uid u same r (some none) = some (r, no_entry)
  replace id uid u same r (some (some old)) =
      if uid == id u
      then (if same
          then some (r, done)
          else some (record r { slots = set r.slots uid (some u) }, done))
      else move uid (id u) u r (get_elem? r.slots (id u))

  unfoldable pub update : (id : A → ℕ) → ℕ → A → Bool → Registry A → Option (Registry A × Updated)
  update id uid u same r =
      if uid == invalid
      then some (r, bad_id)
      else (if ltb r.max uid
          then some (r, bad_id)
          else replace id uid u same r (get_elem? r.slots uid))

  abbrev pub clear : ℕ → Registry A → Option (Option A) → Option (Registry A × Option A)
  clear uid r none = none
  clear uid r (some none) = some (r, none)
  clear uid r (some (some u)) = some (record r { slots = set r.slots uid none }, some u)

  unfoldable pub unregister : ℕ → Registry A → Option (Registry A × Option A)
  unregister uid r =
      if uid == invalid
      then some (r, none)
      else (if ltb r.max uid then some (r, none) else clear uid r (get_elem? r.slots uid))

  unfoldable pub free_registry : Registry A → Registry A
  free_registry r = empty

  unfoldable pub get_by_id : Registry A → ℕ → Option A
  get_by_id r uid =
      if uid == invalid
      then none
      else (if ltb r.max uid then none else (if r.max == 0 then none else slot r uid))

  -- The loop of user_get_by_name.
  unfoldable pub first_named : (name : A → Bytes) → Bytes → List (Option A) → Option A
  first_named name wanted [] = none
  first_named name wanted (none ∷ l) = first_named name wanted l
  first_named name wanted (some u ∷ l) =
      if str_eq wanted (name u) then some u else first_named name wanted l

  unfoldable pub get_by_name : (name : A → Bytes) → Registry A → Bytes → Option A
  get_by_name name r wanted =
      if ltb (length wanted) 1 || r.max == 0
      then none
      else first_named name wanted (take (suc r.max) r.slots)

  -- The loop of user_get_list.
  unfoldable pub ids : (id : A → ℕ) → List (Option A) → List ℕ
  ids id [] = []
  ids id (none ∷ l) = ids id l
  ids id (some u ∷ l) = if id u == invalid then ids id l else id u ∷ ids id l

  -- The numbers before the terminator -1.
  unfoldable pub get_list : (id : A → ℕ) → Registry A → List ℕ
  get_list id r = ids id (take r.max r.slots)

  abbrev pub is_free : Option A → Bool
  is_free none = true
  is_free (some u) = false

  -- The loop of user_find_free_uid, with the rounds that are left to the maximum as fuel.
  unfoldable pub free_from : ℕ → Registry A → ℕ → ℕ
  free_from zero r uid = uid
  free_from (suc fuel) r uid =
      let on = free_from fuel r (suc uid) in
      if ltb uid r.max && not (uid == invalid)
      then (if is_free (slot r uid) then uid else on)
      else uid

  unfoldable pub find_free : Registry A → ℕ → ℕ
  find_free r start =
      let from = if start == invalid then 0 else start in free_from (r.max - from) r from
