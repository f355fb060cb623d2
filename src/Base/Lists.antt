-- ===== src/Base/Lists.antt =====
-- Lists measured and indexed by native numbers, under the library's names.
use Prim.Native.Nat.{ℕ, zero, suc, ◌+◌, ◌≤◌, ◌<◌}
use mathlib.Core.Path.{◌≡◌, refl, ap}
use mathlib.Core.List.{List, [], ◌∷◌, ◌++◌}
use mathlib.Core.Option.{Option, none, some}
use native.Mathlib.Omega.{arith}
use wzdftpd.Base.Tests.{◌==◌, if◌then◌else◌}

module _ {ℓ} {A : Type ℓ} where
  abbrev pub length : List A → ℕ
  length [] = 0
  length (x ∷ xs) = suc (length xs)

  abbrev pub get_elem? : List A → ℕ → Option A
  get_elem? [] i = none
  get_elem? (x ∷ xs) zero = some x
  get_elem? (x ∷ xs) (suc i) = get_elem? xs i

  abbrev pub get_or : List A → ℕ → A → A
  get_or [] i d = d
  get_or (x ∷ xs) zero d = x
  get_or (x ∷ xs) (suc i) d = get_or xs i d

  -- A write out of bounds changes nothing.
  abbrev pub set : List A → ℕ → A → List A
  set [] i v = []
  set (x ∷ xs) zero v = v ∷ xs
  set (x ∷ xs) (suc i) v = x ∷ set xs i v

  abbrev pub take : ℕ → List A → List A
  take zero xs = []
  take (suc n) [] = []
  take (suc n) (x ∷ xs) = x ∷ take n xs

  abbrev pub drop : ℕ → List A → List A
  drop zero xs = xs
  drop (suc n) [] = []
  drop (suc n) (x ∷ xs) = drop n xs

  abbrev pub replicate : ℕ → A → List A
  replicate zero a = []
  replicate (suc n) a = a ∷ replicate n a

  -- The list without its element at an index.
  abbrev pub remove_at : List A → ℕ → List A
  remove_at [] i = []
  remove_at (x ∷ xs) zero = xs
  remove_at (x ∷ xs) (suc i) = x ∷ remove_at xs i

  -- Every element satisfies a predicate.
  abbrev pub All {κ} : (A → Type κ) → List A → Type κ
  All P [] = Unit
  All P (x ∷ xs) = P x × All P xs

  pub length-append : (xs ys : List A) → length (xs ++ ys) ≡ length xs + length ys
  length-append [] ys = omega arith
  length-append (x ∷ xs) ys = omega (arith, length-append xs ys)

  pub length-set : (xs : List A) (i : ℕ) (v : A) → length (set xs i v) ≡ length xs
  length-set (x ∷ xs) (suc i) v = ap suc (length-set xs i v)
  length-set _ _ v = refl

  pub length-replicate : (n : ℕ) (a : A) → length (replicate n a) ≡ n
  length-replicate zero a = refl
  length-replicate (suc n) a = ap suc (length-replicate n a)

  pub get_or-replicate : (n i : ℕ) (a : A) → get_or (replicate n a) i a ≡ a
  get_or-replicate (suc n) (suc i) a = get_or-replicate n i a
  get_or-replicate _ _ a = refl

  pub get_or-set :
      (xs : List A) (i j : ℕ) (v d : A)
      → i < length xs
      → get_or (set xs i v) j d ≡ (if i == j then v else get_or xs j d)
  get_or-set [] i j v d h = absurd (omega arith)
  get_or-set (x ∷ xs) (suc i) (suc j) v d h = ground (arith, get_or-set xs i j v d)
  get_or-set (x ∷ xs) zero zero v d h = refl
  get_or-set (x ∷ xs) i j v d h = ground arith

  pub take-length-append : (xs ys : List A) → take (length xs) (xs ++ ys) ≡ xs
  take-length-append [] ys = refl
  take-length-append (x ∷ xs) ys = ap (◌∷◌ x) (take-length-append xs ys)

  pub drop-length-append : (xs ys : List A) → drop (length xs) (xs ++ ys) ≡ ys
  drop-length-append [] ys = refl
  drop-length-append (x ∷ xs) ys = drop-length-append xs ys

  pub drop-append_next :
      (xs ys : List A) (y : A) (n : ℕ) → n ≡ suc (length xs) → drop n (xs ++ y ∷ ys) ≡ ys
  drop-append_next [] ys y (suc zero) h = refl
  drop-append_next (x ∷ xs) ys y (suc n) h = drop-append_next xs ys y n (omega arith)
  drop-append_next [] ys y (suc (suc n)) h = absurd (omega arith)
  drop-append_next xs ys y zero h = absurd (omega arith)

  pub take-append-drop : (n : ℕ) (xs : List A) → take n xs ++ drop n xs ≡ xs
  take-append-drop zero xs = refl
  take-append-drop (suc n) [] = refl
  take-append-drop (suc n) (x ∷ xs) = ap (◌∷◌ x) (take-append-drop n xs)

  pub take_all : (n : ℕ) (xs : List A) → length xs ≤ n → take n xs ≡ xs
  take_all zero [] h = refl
  take_all zero (x ∷ xs) h = absurd (omega arith)
  take_all (suc n) [] h = refl
  take_all (suc n) (x ∷ xs) h = ap (◌∷◌ x) (take_all n xs (omega arith))

  pub All-append {κ} : (P : A → Type κ) (xs ys : List A) → All P xs → All P ys → All P (xs ++ ys)
  All-append P [] ys hx hy = hy
  All-append P (x ∷ xs) ys hx hy = (hx.0, All-append P xs ys hx.1 hy)

  pub All-set {κ} :
      (P : A → Type κ) (xs : List A) (i : ℕ) (v : A) → All P xs → P v → All P (set xs i v)
  All-set P [] i v h p = h
  All-set P (x ∷ xs) zero v h p = (p, h.1)
  All-set P (x ∷ xs) (suc i) v h p = (h.0, All-set P xs i v h.1 p)

  pub All-remove_at {κ} : (P : A → Type κ) (xs : List A) (i : ℕ) → All P xs → All P (remove_at xs i)
  All-remove_at P [] i h = h
  All-remove_at P (x ∷ xs) zero h = h.1
  All-remove_at P (x ∷ xs) (suc i) h = (h.0, All-remove_at P xs i h.1)

  pub get_elem?-append_here :
      (xs ys : List A) (y : A) → get_elem? (xs ++ y ∷ ys) (length xs) ≡ some y
  get_elem?-append_here [] ys y = refl
  get_elem?-append_here (x ∷ xs) ys y = get_elem?-append_here xs ys y

  pub set-append_here : (xs ys : List A) (y v : A) → set (xs ++ y ∷ ys) (length xs) v ≡ xs ++ v ∷ ys
  set-append_here [] ys y v = refl
  set-append_here (x ∷ xs) ys y v = ap (◌∷◌ x) (set-append_here xs ys y v)

  pub All-map {κ μ} :
      (P : A → Type κ) (Q : A → Type μ) (xs : List A) → ((x : A) → P x → Q x) → All P xs → All Q xs
  All-map P Q [] f h = tt
  All-map P Q (x ∷ xs) f h = (f x h.0, All-map P Q xs f h.1)

  pub drop_all : (n : ℕ) (xs : List A) → length xs ≤ n → drop n xs ≡ []
  drop_all zero [] h = refl
  drop_all zero (x ∷ xs) h = absurd (omega arith)
  drop_all (suc n) [] h = refl
  drop_all (suc n) (x ∷ xs) h = drop_all n xs (omega arith)
