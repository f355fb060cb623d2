-- ===== src/User/Flags/Change.antt =====
-- The operations on the flags of a user keep the array well formed, and decide which flags are in it.
use wzdftpd.Base.{
  ℕ, ◌+◌, ◌-◌, ◌<◌, Bool, true, false, not, ◌&&◌, ◌||◌, [], ◌∷◌, Bytes, ◌≡◌, ◌≢◌, refl, ap, ◌∙◌,
  inl, inr, arith, if◌then◌else◌, ◌==◌, leb, length, set, has_char, is_alnum, get_or, drop,
  Bool-cases,
}
use wzdftpd.Perm.Add.{c_string}
use wzdftpd.User.Flags.{
  max_flags_num, flag_siteop, flag_gadmin, add_from, clash, user_flags_add, without, padded,
  user_flags_delete, user_flags_clear, user_flags_change, added_code, replace_flags,
}
use wzdftpd.User.Flags.Text.{
  NonZero, c_string-padded, with_flags, with_flags-length, with_flags-NonZero, has_char-with_flags,
  add_from-padded, without-length, without-NonZero, has_char-without, c_string-NonZero, set_zero,
}

-- The array holds its text and zeros, with one zero at least, and the flags of a site operator and of
-- a group administrator do not stand in it together.
pub record IsValid (array : Bytes) : Type 0 where
  pub filled : array ≡ padded (c_string array)
  pub room : length (c_string array) < max_flags_num
  pub exclusive :
      (has_char flag_siteop (c_string array) && has_char flag_gadmin (c_string array)) ≡ false

padded-IsValid :
    (s : Bytes)
    → NonZero s
    → length s < max_flags_num
    → (has_char flag_siteop s && has_char flag_gadmin s) ≡ false
    → IsValid (padded s) × (c_string (padded s) ≡ s)
padded-IsValid s n h e =
    let t = c_string-padded s (max_flags_num - length s) n in
    (record { filled = rw t refl; room = rw t h; exclusive = rw t e }, t)

-- The array and the membership of the flag `c` after an operation.
abbrev Gives : Bytes → ℕ → Bool → Type 0
Gives array c member = IsValid array × (has_char c (c_string array) ≡ member)

padded-Gives :
    (s : Bytes) (c : ℕ)
    → NonZero s
    → length s < max_flags_num
    → (has_char flag_siteop s && has_char flag_gadmin s) ≡ false
    → Gives (padded s) c (has_char c s)
padded-Gives s c n h e = let (v, t) = padded-IsValid s n h e in (v, ap (has_char c) t)

module _ (array : Bytes) (valid : IsValid array) (c : ℕ) where
  abbrev text : Bytes
  text = c_string array

  delete_lem :
      (flags : Bytes)
      → let (a, r) = user_flags_delete array flags in
        Gives a c (if r == 0 then has_char c text && not (has_char c flags) else has_char c text)
  unfolding user_flags_delete
  delete_lem [] = (valid, refl)
  delete_lem (f ∷ flags) = elim (Bool-cases (leb max_flags_num (length (f ∷ flags)))) [
    | inl h ↦ rw h (valid, refl)
    | inr h ↦ rw h (
        rw (← has_char-without c (f ∷ flags) text) (
          padded-Gives (without (f ∷ flags) text) c
            (without-NonZero (f ∷ flags) text (c_string-NonZero array))
            (omega (arith, without-length (f ∷ flags) text, valid.room))
            (rw
              (
                has_char-without flag_siteop (f ∷ flags) text,
                has_char-without flag_gadmin (f ∷ flags) text,
              )
              (ground (arith, valid.exclusive)))))
  ]

  add_array :
      (fl : Bytes)
      → length text + length fl < max_flags_num
      → set (add_from array (length text) fl) (length text + length fl) 0
        ≡ padded (with_flags text fl)
  add_array fl h =
      ap (λ a. set a (length text + length fl) 0)
        (ap (λ a. add_from a (length text) fl) valid.filled
          ∙ add_from-padded fl text (c_string-NonZero array) h)
      ∙ set_zero (with_flags text fl) (max_flags_num - length (with_flags text fl))
          (length text + length fl) (with_flags-length fl text).1

  add_lem :
      (flags : Bytes)
      → let (a, r) = user_flags_add array flags in
        Gives a c
          (if r == 0 then has_char c text || (is_alnum c && has_char c flags) else has_char c text)
  unfolding user_flags_add
  add_lem [] = (valid, refl)
  add_lem (f ∷ flags) = elim (Bool-cases (clash text (f ∷ flags))) [
    | inl h ↦ rw h (valid, refl)
    | inr h ↦ elim (Bool-cases (leb max_flags_num (length text + length (f ∷ flags)))) [
      | inl k ↦ rw (h, k) (valid, refl)
      | inr k ↦
          rw (h, k)
            (rw (add_array (f ∷ flags) (ground arith), ← has_char-with_flags c (f ∷ flags) text)
              (padded-Gives (with_flags text (f ∷ flags)) c
                (with_flags-NonZero (f ∷ flags) text (c_string-NonZero array))
                (ground (arith, with_flags-length (f ∷ flags) text))
                (rw
                  (
                    has_char-with_flags flag_siteop (f ∷ flags) text,
                    has_char-with_flags flag_gadmin (f ∷ flags) text,
                  )
                  (ground (arith, valid.exclusive)))))
    ]
  ]

-- user_flags_add fails on the flags of a cleared array only for a clash or for too many flags.
add_clear :
    (f : ℕ) (flags : Bytes)
    → leb max_flags_num (length (f ∷ flags)) ≡ false
    → (has_char flag_siteop (f ∷ flags) && has_char flag_gadmin (f ∷ flags)) ≡ false
    → (user_flags_add user_flags_clear (f ∷ flags)).1 ≡ 0
unfolding user_flags_add user_flags_clear c_string has_char
add_clear f flags h k = rw k (ground arith)

clear-IsValid : IsValid user_flags_clear
unfolding user_flags_clear c_string has_char
clear-IsValid = record { filled = refl; room = omega arith; exclusive = refl }

no_flags : (c : ℕ) → has_char c (c_string user_flags_clear) ≡ false
unfolding user_flags_clear c_string has_char
no_flags c = refl

-- Membership of a flag after a successful change of the text.
abbrev pub changed : ℕ → Bytes → Bytes → Bool
changed c text flags =
    if get_or flags 0 0 == b'+'
    then has_char c text || (is_alnum c && has_char c (drop 1 flags))
    else (if get_or flags 0 0 == b'-'
        then has_char c text && not (has_char c (drop 1 flags))
        else is_alnum c && has_char c flags)

-- What the theorem says of a result.
abbrev Outcome : Bytes × ℕ → ℕ → Bool → Bool → Type 0
Outcome (a, r) c x y = IsValid a × (has_char c (c_string a) ≡ (if r == 0 then x else y)) × (r ≢ 4)

same_if :
    (r q : ℕ) (x y : Bool)
    → (q == 0) ≡ (r == 0)
    → (if r == 0 then x else y) ≡ (if q == 0 then x else y)
same_if r q x y h = rw h refl

-- A new number that is 0 for 0 only, and never 4.
renumber :
    (f : ℕ → ℕ) (p : Bytes × ℕ) (c : ℕ) (x y : Bool)
    → (f p.1 == 0) ≡ (p.1 == 0)
    → f p.1 ≢ 4
    → Gives p.0 c (if p.1 == 0 then x else y)
    → Outcome (p.0, f p.1) c x y
renumber f p c x y e n g = (g.0, g.1 ∙ same_if p.1 (f p.1) x y e, n)

abbrev removed_code : ℕ → ℕ
removed_code r = if r == 0 then 0 else 3

replaced :
    (array flags : Bytes) (c : ℕ)
    → IsValid array
    → is_alnum (get_or flags 0 0) ≡ true
    → Outcome
        (replace_flags array flags)
        c
        (is_alnum c && has_char c flags)
        (has_char c (c_string array))
replaced array [] c valid h = cc h
replaced array (f ∷ flags) c valid h = elim (Bool-cases (leb max_flags_num (length (f ∷ flags)))) [
  | inl l ↦ rw l (valid, refl, omega arith)
  | inr l ↦
      elim (Bool-cases (has_char flag_siteop (f ∷ flags) && has_char flag_gadmin (f ∷ flags))) [
        | inl b ↦ rw (l, b) (valid, refl, omega arith)
        | inr b ↦
            rw (l, b, add_clear f flags l b)
              (let (v, m) = add_lem user_flags_clear clear-IsValid c (f ∷ flags) in
                (v, m ∙ rw (add_clear f flags l b, no_flags c) refl, omega arith))
      ]
]

-- From a valid array of flags, and for any text of changes, user_flags_change leaves a valid array: it
-- ends in a zero, and does not hold the flags of a site operator and a group administrator together.
-- Where it returns 0, exactly these flags are set: after '+' the old ones and the alphanumeric ones of
-- the text, after '-' the old ones that are not in the text, else the alphanumeric ones of the text.
-- Where it returns an error, exactly the old ones are set; and it does not return -4.
pub user_flags_change-IsValid :
    (array flags : Bytes) (c : ℕ)
    → IsValid array
    → let (a, r) = user_flags_change array flags in
      IsValid a
      × (has_char c (c_string a)
          ≡ (if r == 0 then changed c (c_string array) flags else has_char c (c_string array)))
      × (r ≢ 4)
unfolding user_flags_change
user_flags_change-IsValid array flags c valid = elim (Bool-cases (get_or flags 0 0 == b'+')) [
  | inl h ↦ rw h (
      renumber added_code (user_flags_add array (drop 1 flags)) c _ _ (ground arith) (ground arith)
        (add_lem array valid c (drop 1 flags)))
  | inr h ↦ elim (Bool-cases (get_or flags 0 0 == b'-')) [
    | inl k ↦
        rw (h, k)
          (renumber removed_code (user_flags_delete array (drop 1 flags)) c _ _ (ground arith)
            (ground arith) (delete_lem array valid c (drop 1 flags)))
    | inr k ↦ elim (Bool-cases (is_alnum (get_or flags 0 0))) [
      | inl l ↦ rw (h, k, l) (replaced array flags c valid l)
      | inr l ↦ rw (h, k, l) (valid, refl, omega arith)
    ]
  ]
]
