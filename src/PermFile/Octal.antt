-- ===== src/PermFile/Octal.antt =====
-- The numbers of a permission file: strtoul to the base 8 reads what "%lo" writes.
use wzdftpd.Base.{
  ℕ, zero, suc, ◌+◌, ◌-◌, ◌*◌, ◌/◌, ◌%◌, ◌≤◌, true, [], ◌∷◌, ◌++◌, some, Bytes, ltb, ◌≡◌, refl,
  skip_spaces, inl, inr, Bool-cases, arith,
}
use wzdftpd.PermFile.Text.{
  u64_max, is_octal, octal_value, clamped, has_digit, signed_octal, strtoul_8, octal_digits,
  show_octal,
}
use wzdftpd.PermFile.Words.{every, every-append, every-weaken, word_char, is_word}

is_octal-digit : (n : ℕ) → is_octal (b'0' + n % 8) ≡ true
is_octal-digit n = ground arith

octal_digits-octal : (fuel n : ℕ) → every is_octal (octal_digits fuel n) ≡ true
unfolding octal_digits every
octal_digits-octal zero n = ground arith
octal_digits-octal (suc fuel) n = elim (Bool-cases (ltb n 8)) [
  | inl h ↦ rw h (ground arith)
  | inr h ↦ rw h (
      every-append is_octal (octal_digits fuel (n / 8)) ((b'0' + n % 8) ∷ [])
        (octal_digits-octal fuel (n / 8)) (ground arith))
]

octal_head :
    (c : ℕ) (a : Bytes)
    → every is_octal (c ∷ a) ≡ true
    → (is_octal c ≡ true) × (every is_octal a ≡ true)
unfolding every
octal_head c a h = ground arith

octal_value-append :
    (a : Bytes) (d acc : ℕ)
    → every is_octal a ≡ true
    → is_octal d ≡ true
    → octal_value acc (a ++ d ∷ []) ≡ octal_value acc a * 8 + (d - b'0')
unfolding octal_value every
octal_value-append [] d acc ha hd = rw hd refl
octal_value-append (c ∷ a) d acc ha hd =
    let k = octal_head c a ha in rw (k.0, octal_value-append a d (acc * 8 + (c - b'0')) k.1 hd) refl

octal_value-digits : (fuel n : ℕ) → n ≤ fuel → octal_value 0 (octal_digits fuel n) ≡ n
unfolding octal_value octal_digits
octal_value-digits zero n h = ground arith
octal_value-digits (suc fuel) n h = elim (Bool-cases (ltb n 8)) [
  | inl e ↦ rw e (ground arith)
  | inr e ↦
      let le : n / 8 ≤ fuel = omega arith in
      rw
        (
          e,
          octal_value-append (octal_digits fuel (n / 8)) (b'0' + n % 8) 0
              (octal_digits-octal fuel (n / 8)) (is_octal-digit n),
          octal_value-digits fuel (n / 8) le,
        )
        (omega arith)
]

has_digit-append : (a b : Bytes) → has_digit a ≡ true → has_digit (a ++ b) ≡ true
has_digit-append [] b h = cc
has_digit-append (c ∷ a) b h = h

has_digit-octal_digits : (fuel n : ℕ) → has_digit (octal_digits fuel n) ≡ true
unfolding octal_digits
has_digit-octal_digits zero n = is_octal-digit n
has_digit-octal_digits (suc fuel) n = elim (Bool-cases (ltb n 8)) [
  | inl h ↦ rw h (ground arith)
  | inr h ↦ rw h (
      has_digit-append (octal_digits fuel (n / 8)) ((b'0' + n % 8) ∷ [])
        (has_digit-octal_digits fuel (n / 8)))
]

octal-word_char : (c : ℕ) → is_octal c ≡ true → word_char c ≡ true
octal-word_char c h = ground arith

word-octal : (s : Bytes) → has_digit s ≡ true → every is_octal s ≡ true → is_word s ≡ true
word-octal [] h e = cc
word-octal (c ∷ s) h e = every-weaken is_octal word_char (c ∷ s) octal-word_char e

-- What is printed of a number is a word.
pub word-show_octal : (n : ℕ) → is_word (show_octal n) ≡ true
unfolding show_octal
word-show_octal n =
    word-octal (octal_digits n n) (has_digit-octal_digits n n) (octal_digits-octal n n)

skip_spaces-octal : (s : Bytes) → has_digit s ≡ true → skip_spaces s ≡ s
unfolding skip_spaces
skip_spaces-octal [] h = refl
skip_spaces-octal (c ∷ s) h = ground arith

signed_octal-digits :
    (s : Bytes) → has_digit s ≡ true → signed_octal s ≡ some (clamped (octal_value 0 s))
signed_octal-digits [] h = cc
signed_octal-digits (c ∷ s) h = ground arith

clamped-small : (n : ℕ) → n ≤ u64_max → clamped n ≡ n
clamped-small n h = ground arith

pub strtoul_8-show_octal : (n : ℕ) → n ≤ u64_max → strtoul_8 (show_octal n) ≡ some n
unfolding strtoul_8 show_octal
strtoul_8-show_octal n h =
    let d = has_digit-octal_digits n n in
    let le : n ≤ n = omega arith in
    rw
      (
        skip_spaces-octal (octal_digits n n) d,
        signed_octal-digits (octal_digits n n) d,
        octal_value-digits n n le,
        clamped-small n h,
      )
      refl
