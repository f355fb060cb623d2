-- ===== src/PermFile/Parents.antt =====
-- libwzd-core/wzd_file.c: the parents that _checkPerm goes to.
use wzdftpd.Base.{
  ℕ, zero, suc, ◌≤◌, ◌<◌, Bool, true, false, List, [], ◌∷◌, Option, none, some, Bytes,
  if◌then◌else◌, ◌==◌, ◌≡◌, ◌⊎◌, refl, sym, length, take, last_index_of, inl, inr, Bool-cases,
  Option-cases, arith, codes,
}
use mathlib.Core.Path.{subst}
use wzdftpd.User.{User}
use wzdftpd.PermFile.Access.{Verdict, error, Disk, cut_at}
use wzdftpd.PermFile.Paths.{creates, check_perm, refused, check_in, after_parent}

found_later :
    (o : Option ℕ) (b : Bool) (i : ℕ)
    → (elim o [ some k ↦ some (suc k) | none ↦ if b then some 0 else none ]) ≡ some (suc i)
    → o ≡ some i
found_later none true i h = ground arith
found_later none false i h = cc
found_later (some k) b i h = ground arith

last_index_of-lt : (c : ℕ) (s : Bytes) (i : ℕ) → last_index_of c s ≡ some i → i < length s
unfolding last_index_of
last_index_of-lt c [] i h = cc
last_index_of-lt c (x ∷ s) zero h = omega arith
last_index_of-lt c (x ∷ s) (suc i) h =
    omega (arith, last_index_of-lt c s i (found_later (last_index_of c s) (x == c) i h))

length-take_le : (n : ℕ) (s : Bytes) → length (take n s) ≤ n
length-take_le zero s = omega arith
length-take_le (suc n) [] = omega arith
length-take_le (suc n) (x ∷ s) = omega (arith, length-take_le n s)

abbrev pub root : Bytes
root = b'/' ∷ []

abbrev parent : Bytes → Bytes
parent path = (cut_at path (last_index_of b'/' path)).0

cut_at-shorter :
    (x : ℕ) (s : Bytes) (i : ℕ)
    → i < suc (length (x ∷ s))
    → (p : Bytes) × (cut_at (b'/' ∷ x ∷ s) (some i)).0 ≡ b'/' ∷ p × length p ≤ length s
cut_at-shorter x s zero h = ([], refl, omega arith)
cut_at-shorter x s (suc i) h = (take i (x ∷ s), refl, omega (arith, length-take_le i (x ∷ s)))

last_index_of-head : (c : ℕ) (s : Bytes) → (i : ℕ) × (last_index_of c (c ∷ s) ≡ some i)
unfolding last_index_of
last_index_of-head c s = elim (Option-cases (last_index_of c s)) [
  | inl e ↦ (0, rw e (ground arith))
  | inr (k, e) ↦ (suc k, rw e refl)
]

-- The parent of an absolute path other than the root is a shorter absolute path.
parent-shorter :
    (x : ℕ) (s : Bytes) → (p : Bytes) × (parent (b'/' ∷ x ∷ s) ≡ b'/' ∷ p) × (length p ≤ length s)
parent-shorter x s =
    let (i, e) = last_index_of-head b'/' (x ∷ s) in
    rw (parent, e) (cut_at-shorter x s i (last_index_of-lt b'/' (b'/' ∷ x ∷ s) i e))

-- What _checkPerm returns, by its recursion on the parent.
module _ (umask : ℕ) (stat : Bytes → Option Bool) (d : Disk) (right : ℕ) (user : User)
    (groups : List Bytes) where
  pub data Checked : Bytes → Verdict → Type 0 where
    at_once : (path : Bytes) → refused path right user ≡ true → Checked path error
    present :
        (path : Bytes) (dir : Bool)
        → refused path right user ≡ false
        → stat path ≡ some dir
        → Checked path (
            check_in umask stat d
              (if dir then (path, codes ".") else cut_at path (last_index_of b'/' path))
              right
              user
              groups)
    missing :
        (path : Bytes)
        → refused path right user ≡ false
        → stat path ≡ none
        → creates right ≡ false
        → Checked path error
    made :
        (path : Bytes) (v : Verdict)
        → refused path right user ≡ false
        → stat path ≡ none
        → creates right ≡ true
        → Checked (parent path) v
        → Checked path (
            after_parent v
              (check_in umask stat d (cut_at path (last_index_of b'/' path)) right user groups))

  -- One round, where the check of the parent is right if it is needed.
  check_perm-round :
      (fuel : ℕ) (path : Bytes)
      → ((is_dir : Bool) × (stat path ≡ some is_dir))
        ⊎ Checked (parent path) (check_perm umask stat d fuel (parent path) right user groups)
      → Checked path (check_perm umask stat d (suc fuel) path right user groups)
  unfolding check_perm
  check_perm-round fuel path h = elim (Bool-cases (refused path right user)) [
    | inl e ↦ rw e (at_once path e)
    | inr e ↦ elim h [
      | inl (dir, t) ↦ rw (e, t) (present path dir e t)
      | inr c ↦ elim (Option-cases (stat path)) [
        | inr (dir, t) ↦ rw (e, t) (present path dir e t)
        | inl t ↦ elim (Bool-cases (creates right)) [
          | inl m ↦ rw (e, t, m) (made path _ e t m c)
          | inr m ↦ rw (e, t, m) (missing path e t m)
        ]
      ]
    ]
  ]

  check_perm-from :
      (n fuel : ℕ) (s : Bytes) (is_dir : Bool)
      → stat root ≡ some is_dir
      → length s ≤ n
      → n < fuel
      → Checked (b'/' ∷ s) (check_perm umask stat d fuel (b'/' ∷ s) right user groups)
  check_perm-from n (suc fuel) [] dir h hs hn = check_perm-round fuel root (inl (dir, h))
  check_perm-from (suc n) (suc fuel) (x ∷ s) dir h hs hn =
      let (p, eq, le) = parent-shorter x s in
      check_perm-round fuel (b'/' ∷ x ∷ s) (
        inr (
          subst (λ q. Checked q (check_perm umask stat d fuel q right user groups)) (sym eq)
            (check_perm-from n fuel p dir h (omega arith) (omega arith))))
  check_perm-from n zero s dir h hs hn = absurd (omega arith)
  check_perm-from zero (suc fuel) (x ∷ s) dir h hs hn = absurd (omega arith)

-- For an absolute path in a file system with a root, fuel of the path's length is enough: check_perm
-- returns what the recursion of _checkPerm on the parent directories returns.
pub check_perm-Checked :
    (umask : ℕ) (stat : Bytes → Option Bool) (d : Disk) (right : ℕ) (user : User)
    (groups : List Bytes) (fuel : ℕ) (s : Bytes) (is_dir : Bool)
    → stat root ≡ some is_dir
    → length (b'/' ∷ s) ≤ fuel
    → Checked umask stat d right user groups
        (b'/' ∷ s)
        (check_perm umask stat d fuel (b'/' ∷ s) right user groups)
check_perm-Checked umask stat d right user groups fuel s is_dir h le =
    check_perm-from umask stat d right user groups (length s) fuel s is_dir h (omega arith)
      (omega arith)
