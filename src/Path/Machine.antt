-- ===== src/Path/Machine.antt =====
-- Facts on reads, writes and cuts at an index of a buffer, for the loop of path_simplify.
use wzdftpd.Base.{
  ℕ, zero, suc, ◌+◌, ◌≤◌, ◌<◌, true, false, [], ◌∷◌, ◌++◌, Bytes, ◌≡◌, refl, ap, ◌∙◌, sym, arith,
  inl, inr, ◌==◌, length, set, take, drop, All, Bool-cases, ==_iff,
}
use wzdftpd.Path.{slash, at, back_to_slash}

-- A component of a path: no slash in it.
abbrev pub Plain : Bytes → Type 0
Plain c = All (λ x. (x == slash) ≡ false) c

pub at-drop : (b : Bytes) (n i : ℕ) → at b (i + n) ≡ at (drop n b) i
at-drop b zero i = ap (at b) (omega arith)
at-drop [] (suc n) i = refl
at-drop (x ∷ b) (suc n) i = let e : i + suc n ≡ suc (i + n) = omega arith in rw e (at-drop b n i)

pub lt_of_drop : (b : Bytes) (n : ℕ) (c : ℕ) (r : Bytes) → drop n b ≡ c ∷ r → n < length b
lt_of_drop [] zero c r h = cc h
lt_of_drop [] (suc n) c r h = cc h
lt_of_drop (x ∷ b) zero c r h = omega arith
lt_of_drop (x ∷ b) (suc n) c r h = omega (arith, lt_of_drop b n c r h)

pub drop_next : (b : Bytes) (n : ℕ) (c : ℕ) (r : Bytes) → drop n b ≡ c ∷ r → drop (suc n) b ≡ r
drop_next [] zero c r h = cc h
drop_next [] (suc n) c r h = cc h
drop_next (x ∷ b) zero c r h = cc h
drop_next (x ∷ b) (suc n) c r h = drop_next b n c r h

pub length-drop_nil : (b : Bytes) (n : ℕ) → drop n b ≡ [] → length b ≤ n
length-drop_nil [] n h = omega arith
length-drop_nil (x ∷ b) zero h = cc h
length-drop_nil (x ∷ b) (suc n) h = omega (arith, length-drop_nil b n h)

pub take-set : (b : Bytes) (n v : ℕ) → n < length b → take (suc n) (set b n v) ≡ take n b ++ v ∷ []
take-set [] n v h = absurd (omega arith)
take-set (x ∷ b) zero v h = refl
take-set (x ∷ b) (suc n) v h = ap (◌∷◌ x) (take-set b n v (omega arith))

pub drop-set : (b : Bytes) (m n v : ℕ) → n < m → drop m (set b n v) ≡ drop m b
drop-set b zero n v h = absurd (omega arith)
drop-set [] (suc m) n v h = refl
drop-set (x ∷ b) (suc m) zero v h = refl
drop-set (x ∷ b) (suc m) (suc n) v h = drop-set b m n v (omega arith)

pub length-take : (b : Bytes) (n : ℕ) → n ≤ length b → length (take n b) ≡ n
length-take b zero h = refl
length-take [] (suc n) h = absurd (omega arith)
length-take (x ∷ b) (suc n) h = ap suc (length-take b n (omega arith))

pub at-take : (b : Bytes) (n i : ℕ) → i < n → at (take n b) i ≡ at b i
at-take b zero i h = absurd (omega arith)
at-take [] (suc n) i h = refl
at-take (x ∷ b) (suc n) zero h = refl
at-take (x ∷ b) (suc n) (suc i) h = at-take b n i (omega arith)

pub take-take : (b : Bytes) (m n : ℕ) → m ≤ n → take m (take n b) ≡ take m b
take-take b zero n h = refl
take-take b (suc m) zero h = absurd (omega arith)
take-take [] (suc m) (suc n) h = refl
take-take (x ∷ b) (suc m) (suc n) h = ap (◌∷◌ x) (take-take b m n (omega arith))

pub at-append : (xs ys : Bytes) (i : ℕ) → at (xs ++ ys) (i + length xs) ≡ at ys i
at-append [] ys i = ap (at ys) (omega arith)
at-append (x ∷ xs) ys i =
    let e : i + suc (length xs) ≡ suc (i + length xs) = omega arith in rw e (at-append xs ys i)

pub Plain-at : (c : Bytes) (i : ℕ) → Plain c → (at c i == slash) ≡ false
Plain-at [] i p = refl
Plain-at (x ∷ c) zero p = p.0
Plain-at (x ∷ c) (suc i) p = Plain-at c i p.1

-- The backwards search stops at the last slash at or before its start.
pub back_to_slash_lem :
    (b : Bytes) (n m : ℕ)
    → n ≤ m
    → at b n ≡ slash
    → ((i : ℕ) → n < i → i ≤ m → (at b i == slash) ≡ false)
    → back_to_slash b m ≡ n
unfolding back_to_slash
back_to_slash_lem b n zero h e plain = omega arith
back_to_slash_lem b n (suc m) h e plain = elim (Bool-cases (n == suc m)) [
  | inl here ↦
      (let same : n ≡ suc m = (==_iff n (suc m)).0 here in
        let found : (at b (suc m) == slash) ≡ true =
          (==_iff (at b (suc m)) slash).1 (ap (at b) (sym same) ∙ e) in
        rw found (sym same))
  | inr before ↦
      (let lt : n < suc m = ground arith in
        rw (plain (suc m) lt (omega arith))
          (back_to_slash_lem b n m (omega arith) e (λ i p q. plain i p (omega arith))))
]
