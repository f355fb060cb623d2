-- ===== src/User/Flags/Text.antt =====
-- What the operations on the flags of a user do to the text of the flags.
use wzdftpd.Base.{
  ℕ, zero, suc, ◌+◌, ◌-◌, ◌≤◌, ◌<◌, Bool, false, not, ◌&&◌, ◌||◌, [], ◌∷◌, ◌++◌, Bytes, ◌≡◌, refl,
  ap, inl, inr, arith, if◌then◌else◌, ◌==◌, length, set, replicate, has_char, is_alnum, All,
  Bool-cases, length-append, All-append,
}
use wzdftpd.Perm.Add.{c_string}
use wzdftpd.User.Flags.{max_flags_num, add_from, without, padded}

abbrev pub NonZero : Bytes → Type 0
NonZero s = All (λ c. (c == 0) ≡ false) s

pub c_string-padded : (s : Bytes) (n : ℕ) → NonZero s → c_string (s ++ replicate n 0) ≡ s
unfolding c_string
c_string-padded [] zero h = refl
c_string-padded [] (suc n) h = refl
c_string-padded (c ∷ s) n h = rw h.0 (ap (◌∷◌ c) (c_string-padded s n h.1))

pub has_char-append : (c : ℕ) (s t : Bytes) → has_char c (s ++ t) ≡ (has_char c s || has_char c t)
unfolding has_char
has_char-append c [] t = refl
has_char-append c (x ∷ s) t = ground (arith, has_char-append c s t)

set-append : (s : Bytes) (z c : ℕ) (t : Bytes) → set (s ++ z ∷ t) (length s) c ≡ (s ++ c ∷ []) ++ t
set-append [] z c t = refl
set-append (x ∷ s) z c t = ap (◌∷◌ x) (set-append s z c t)

pub set_zero :
    (s : Bytes) (k i : ℕ) → length s ≤ i → set (s ++ replicate k 0) i 0 ≡ s ++ replicate k 0
set_zero [] zero i h = refl
set_zero [] (suc k) zero h = refl
set_zero [] (suc k) (suc i) h = ap (◌∷◌ 0) (set_zero [] k i (omega arith))
set_zero (x ∷ s) k zero h = absurd (omega arith)
set_zero (x ∷ s) k (suc i) h = ap (◌∷◌ x) (set_zero s k i (omega arith))

set-padded :
    (s : Bytes) (c : ℕ)
    → length s < max_flags_num
    → set (padded s) (length s) c ≡ padded (s ++ c ∷ [])
set-padded s c h =
    let e : max_flags_num - length s ≡ suc (max_flags_num - suc (length s)) = omega arith in
    let e' : length (s ++ c ∷ []) ≡ suc (length s) = omega (arith, length-append s (c ∷ [])) in
    rw (e, e') (set-append s 0 c (replicate (max_flags_num - suc (length s)) 0))

-- The text after user_flags_add: each flag that is alphanumeric and not there yet goes to the end.
abbrev wanted : ℕ → Bytes → Bool
wanted c s = is_alnum c && not (has_char c s)

pub with_flags : Bytes → Bytes → Bytes
with_flags s [] = s
with_flags s (c ∷ cs) = with_flags (if wanted c s then s ++ c ∷ [] else s) cs

pub with_flags-length :
    (cs s : Bytes)
    → (length s ≤ length (with_flags s cs)) × (length (with_flags s cs) ≤ length s + length cs)
unfolding with_flags
with_flags-length [] s = (omega arith, omega arith)
with_flags-length (c ∷ cs) s = elim (Bool-cases (wanted c s)) [
  | inl h ↦ rw h (omega (arith, with_flags-length cs (s ++ c ∷ []), length-append s (c ∷ [])))
  | inr h ↦ rw h (omega (arith, with_flags-length cs s))
]

pub with_flags-NonZero : (cs s : Bytes) → NonZero s → NonZero (with_flags s cs)
unfolding with_flags
with_flags-NonZero [] s n = n
with_flags-NonZero (c ∷ cs) s n = elim (Bool-cases (wanted c s)) [
  | inl h ↦ rw h (
      with_flags-NonZero cs (s ++ c ∷ [])
        (All-append (λ x. (x == 0) ≡ false) s (c ∷ []) n (ground arith, tt)))
  | inr h ↦ rw h (with_flags-NonZero cs s n)
]

pub has_char-with_flags :
    (c : ℕ) (cs s : Bytes)
    → has_char c (with_flags s cs) ≡ (has_char c s || (is_alnum c && has_char c cs))
unfolding with_flags has_char
has_char-with_flags c [] s = ground arith
has_char-with_flags c (d ∷ cs) s = elim (Bool-cases (wanted d s)) [
  | inl h ↦
      rw (h, has_char-with_flags c cs (s ++ d ∷ []), has_char-append c s (d ∷ [])) (ground arith)
  | inr h ↦ rw (h, has_char-with_flags c cs s) (ground arith)
]

pub add_from-padded :
    (cs s : Bytes)
    → NonZero s
    → length s + length cs < max_flags_num
    → add_from (padded s) (length s) cs ≡ padded (with_flags s cs)
unfolding add_from with_flags
add_from-padded [] s n h = refl
add_from-padded (c ∷ cs) s n h = elim (Bool-cases (wanted c s)) [
  | inl w ↦
      rw (c_string-padded s (max_flags_num - length s) n, w, set-padded s c (omega arith))
        (let e : suc (length s) ≡ length (s ++ c ∷ []) = omega (arith, length-append s (c ∷ [])) in
          rw e (
            add_from-padded cs (s ++ c ∷ [])
              (All-append (λ x. (x == 0) ≡ false) s (c ∷ []) n (ground arith, tt))
              (omega (arith, length-append s (c ∷ [])))))
  | inr w ↦
      rw (c_string-padded s (max_flags_num - length s) n, w) (add_from-padded cs s n (omega arith))
]

pub without-length : (flags s : Bytes) → length (without flags s) ≤ length s
unfolding without
without-length flags [] = omega arith
without-length flags (c ∷ s) = ground (arith, without-length flags s)

pub without-NonZero : (flags s : Bytes) → NonZero s → NonZero (without flags s)
unfolding without
without-NonZero flags [] n = tt
without-NonZero flags (c ∷ s) n = elim (Bool-cases (has_char c flags)) [
  | inl h ↦ rw h (without-NonZero flags s n.1)
  | inr h ↦ rw h (n.0, without-NonZero flags s n.1)
]

pub has_char-without :
    (c : ℕ) (flags s : Bytes)
    → has_char c (without flags s) ≡ (has_char c s && not (has_char c flags))
unfolding without has_char
has_char-without c flags [] = refl
has_char-without c flags (d ∷ s) = elim (Bool-cases (has_char d flags)) [
  | inl h ↦ rw (h, has_char-without c flags s) (ground arith)
  | inr h ↦ rw (h, has_char-without c flags s) (ground arith)
]

pub c_string-NonZero : (s : Bytes) → NonZero (c_string s)
unfolding c_string
c_string-NonZero [] = tt
c_string-NonZero (c ∷ s) = elim (Bool-cases (c == 0)) [
  | inl h ↦ rw h tt
  | inr h ↦ rw h (h, c_string-NonZero s)
]
