-- ===== src/Base64.antt =====
-- libwzd-auth/wzd_base64.c: radix_encode, both ways. The bytes are `unsigned char`s; `a | b` of numbers
-- without a common bit is their sum here. What the decoder writes past `*len` is not part of its
-- result.
use wzdftpd.Base.{
  ℕ, zero, suc, ◌+◌, ◌*◌, ◌/◌, ◌%◌, ◌<◌, Bool, true, false, not, ◌&&◌, ◌||◌, [], ◌∷◌, Option, none,
  some, Bytes, codes, ◌≡◌, refl, ◌∙◌, ap, arith, if◌then◌else◌, ◌==◌, ==_iff, get_or, index_of, All,
  Bool-cases, inl, inr,
}

abbrev radix_n : Bytes
radix_n = codes "ABCDEFGHIJKLMNOPQRSTUVWXYZabcdefghijklmnopqrstuvwxyz0123456789+/"

unfoldable pub digit : ℕ → ℕ
digit d = get_or radix_n d 0

unfoldable pub value_of : ℕ → Option ℕ
value_of x = index_of x radix_n

-- `i % 3`, and `i & 3`
pub data Turn : Type 0 where
  at_0 at_1 at_2 at_3 : Turn

-- The loop of the encoder with its `c`, and the padding after it.
unfoldable pub encode_from : Turn → ℕ → Bytes → Bytes
encode_from at_1 c [] = digit c ∷ b'=' ∷ b'=' ∷ []
encode_from at_2 c [] = digit c ∷ b'=' ∷ []
encode_from t c [] = []
encode_from at_0 c (x ∷ s) = digit (x / 4) ∷ encode_from at_1 (x % 4 * 16) s
encode_from at_1 c (x ∷ s) = digit (c + x / 16) ∷ encode_from at_2 (x % 16 * 4) s
encode_from t c (x ∷ s) = digit (c + x / 64) ∷ digit (x % 64) ∷ encode_from at_0 0 s

unfoldable pub radix_encode : Bytes → Bytes
radix_encode s = encode_from at_0 0 s

-- The loop of the decoder with `outbuf[j]`; `none` for its return value 1.
abbrev emit : ℕ → Option Bytes → Option Bytes
emit x none = none
emit x (some s) = some (x ∷ s)

unfoldable pub decode_from : Turn → ℕ → Bytes → Option Bytes
decode_from t p [] = some []
decode_from t p (x ∷ s) = if x == 0 || x == b'=' then some [] else elim (value_of x) [
  | none ↦ none
  | some d ↦ elim t [
    | at_0 ↦ decode_from at_1 (d * 4 % 256) s
    | at_1 ↦ emit (p + d / 16) (decode_from at_2 (d % 16 * 16) s)
    | at_2 ↦ emit (p + d / 4) (decode_from at_3 (d % 4 * 64) s)
    | at_3 ↦ emit (p + d) (decode_from at_0 0 s)
  ]
]

unfoldable pub radix_decode : Bytes → Option Bytes
radix_decode s = decode_from at_0 0 s

abbrev is_value : Option ℕ → ℕ → Bool
is_value none d = false
is_value (some e) d = e == d

unfoldable good : ℕ → Bool
good d = is_value (value_of (digit d)) d && not (digit d == 0 || digit d == b'=')

abbrev good_below : ℕ → Bool
good_below zero = true
good_below (suc n) = good n && good_below n

good_below_64 : good_below 64 ≡ true
unfolding digit value_of index_of good
good_below_64 = refl

good-below : (n d : ℕ) → good_below n ≡ true → d < n → good d ≡ true
good-below zero d h l = absurd (omega arith)
good-below (suc n) d h l = elim (Bool-cases (d == n)) [
  | inl e ↦ ground (arith, ==_iff d n)
  | inr e ↦ ground (arith, good-below n d)
]

-- A digit of the encoder is a digit of the decoder, and does not end it.
digit_back :
    (d : ℕ) → d < 64 → (value_of (digit d) ≡ some d) × ((digit d == 0 || digit d == b'=') ≡ false)
unfolding good
digit_back d l =
    is_good (value_of (digit d)) d (digit d == 0 || digit d == b'=')
      (good-below 64 d good_below_64 l)
  where
    is_good :
        (o : Option ℕ) (d : ℕ) (b : Bool)
        → (is_value o d && not b) ≡ true
        → (o ≡ some d) × (b ≡ false)
    is_good none d b h = cc h
    is_good (some e) d b h = ground (arith, ==_iff e d)

decode_0 :
    (p d : ℕ) (s : Bytes)
    → d < 64
    → decode_from at_0 p (digit d ∷ s) ≡ decode_from at_1 (d * 4 % 256) s
unfolding decode_from
decode_0 p d s l = let (v, e) = digit_back d l in rw (e, v) refl

decode_1 :
    (p d : ℕ) (s : Bytes)
    → d < 64
    → decode_from at_1 p (digit d ∷ s) ≡ emit (p + d / 16) (decode_from at_2 (d % 16 * 16) s)
unfolding decode_from
decode_1 p d s l = let (v, e) = digit_back d l in rw (e, v) refl

decode_2 :
    (p d : ℕ) (s : Bytes)
    → d < 64
    → decode_from at_2 p (digit d ∷ s) ≡ emit (p + d / 4) (decode_from at_3 (d % 4 * 64) s)
unfolding decode_from
decode_2 p d s l = let (v, e) = digit_back d l in rw (e, v) refl

decode_3 :
    (p d : ℕ) (s : Bytes)
    → d < 64
    → decode_from at_3 p (digit d ∷ s) ≡ emit (p + d) (decode_from at_0 0 s)
unfolding decode_from
decode_3 p d s l = let (v, e) = digit_back d l in rw (e, v) refl

decode_end : (t : Turn) (p : ℕ) (s : Bytes) → decode_from t p (b'=' ∷ s) ≡ some []
unfolding decode_from
decode_end t p s = refl

-- The bytes that the halves of two digits make again.
byte_1 : (x y : ℕ) → x < 256 → y < 16 → x / 4 * 4 % 256 + (x % 4 * 16 + y) / 16 ≡ x
byte_1 x y hx hy = omega arith

byte_2 : (z x y : ℕ) → x < 256 → y < 4 → (z * 16 + x / 16) % 16 * 16 + (x % 16 * 4 + y) / 4 ≡ x
byte_2 z x y hx hy = omega arith

byte_3 : (z x : ℕ) → x < 256 → (z * 4 + x / 64) % 4 * 64 + x % 64 ≡ x
byte_3 z x hx = omega arith

last_1 : (x : ℕ) → x < 256 → x / 4 * 4 % 256 + x % 4 * 16 / 16 ≡ x
last_1 x hx = omega arith

last_2 : (z x : ℕ) → x < 256 → (z * 16 + x / 16) % 16 * 16 + x % 16 * 4 / 4 ≡ x
last_2 z x hx = omega arith

-- Three bytes, as four digits in front of a text.
decode_block :
    (x y z : ℕ) (s : Bytes)
    → x < 256
    → y < 256
    → z < 256
    → decode_from at_0 0 (
        digit (x / 4)
        ∷ digit (x % 4 * 16 + y / 16)
        ∷ digit (y % 16 * 4 + z / 64)
        ∷ digit (z % 64)
        ∷ s)
      ≡ emit x (emit y (emit z (decode_from at_0 0 s)))
decode_block x y z s hx hy hz =
    decode_0 0 (x / 4) _ (omega arith)
    ∙ decode_1 (x / 4 * 4 % 256) (x % 4 * 16 + y / 16) _ (omega arith)
    ∙ ap (λ o. emit (x / 4 * 4 % 256 + (x % 4 * 16 + y / 16) / 16) o)
        (decode_2 ((x % 4 * 16 + y / 16) % 16 * 16) (y % 16 * 4 + z / 64) _ (omega arith)
          ∙ ap (λ o. emit ((x % 4 * 16 + y / 16) % 16 * 16 + (y % 16 * 4 + z / 64) / 4) o)
              (decode_3 ((y % 16 * 4 + z / 64) % 4 * 64) (z % 64) s (omega arith)))
    ∙ rw
        (
          byte_1 x (y / 16) hx (omega arith),
          byte_2 (x % 4) y (z / 64) hy (omega arith),
          byte_3 (y % 16) z hz,
        )
        refl

decode_two :
    (x y : ℕ)
    → x < 256
    → y < 256
    → decode_from at_0 0
        (digit (x / 4) ∷ digit (x % 4 * 16 + y / 16) ∷ digit (y % 16 * 4) ∷ b'=' ∷ [])
      ≡ some (x ∷ y ∷ [])
decode_two x y hx hy =
    decode_0 0 (x / 4) _ (omega arith)
    ∙ decode_1 (x / 4 * 4 % 256) (x % 4 * 16 + y / 16) _ (omega arith)
    ∙ ap (λ o. emit (x / 4 * 4 % 256 + (x % 4 * 16 + y / 16) / 16) o)
        (decode_2 ((x % 4 * 16 + y / 16) % 16 * 16) (y % 16 * 4) _ (omega arith)
          ∙ ap (λ o. emit ((x % 4 * 16 + y / 16) % 16 * 16 + y % 16 * 4 / 4) o)
              (decode_end at_3 (y % 16 * 4 % 4 * 64) []))
    ∙ rw (byte_1 x (y / 16) hx (omega arith), last_2 (x % 4) y hy) refl

decode_one :
    (x : ℕ)
    → x < 256
    → decode_from at_0 0 (digit (x / 4) ∷ digit (x % 4 * 16) ∷ b'=' ∷ b'=' ∷ []) ≡ some (x ∷ [])
decode_one x hx =
    decode_0 0 (x / 4) _ (omega arith)
    ∙ decode_1 (x / 4 * 4 % 256) (x % 4 * 16) _ (omega arith)
    ∙ ap (λ o. emit (x / 4 * 4 % 256 + x % 4 * 16 / 16) o)
        (decode_end at_2 (x % 4 * 16 % 16 * 16) (b'=' ∷ []))
    ∙ rw (last_1 x hx) refl

-- Decoding what radix_encode writes for bytes, whose values are below 256, succeeds and gives the
-- bytes back.
pub radix_decode-encode :
    (s : Bytes) → All (λ x. x < 256) s → radix_decode (radix_encode s) ≡ some s
unfolding radix_decode radix_encode encode_from decode_from
radix_decode-encode [] h = refl
radix_decode-encode (x ∷ []) h = decode_one x h.0
radix_decode-encode (x ∷ y ∷ []) h = decode_two x y h.0 h.1.0
radix_decode-encode (x ∷ y ∷ z ∷ s) h =
    decode_block x y z (encode_from at_0 0 s) h.0 h.1.0 h.1.1.0
    ∙ ap (λ o. emit x (emit y (emit z o))) (radix_decode-encode s h.1.1.1)
