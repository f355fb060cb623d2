-- ===== src/Match.antt =====
-- my_str_compare of libwzd-core/wzd_misc.c: the comparison of a string with a pattern, which the
-- lists of addresses and the directory listings share; and ascii_lower.
use wzdftpd.Base.{
  ℕ, ◌+◌, Bool, true, false, ◌||◌, [], ◌∷◌, map, ◌≡◌, refl, sym, ◌⊎◌, inl, inr, arith, Bytes,
  if◌then◌else◌, ◌==◌, ==_iff, is_upper, get_or,
}

-- `while (*ptr_src && c != *ptr_src) ptr_src++;`
unfoldable pub skip_to : ℕ → Bytes → Bytes
skip_to c [] = []
skip_to c (x ∷ s) = if x == c then x ∷ s else skip_to c s

-- The test after the loop: what is left of the two strings.
unfoldable pub complete : Bytes → Bytes → Bool
complete [] [] = true
complete src (p ∷ []) = p == b'*'
complete src dst = false

abbrev is_nil : Bytes → Bool
is_nil [] = true
is_nil (x ∷ s) = false

-- Every turn of the loop moves `ptr_dst` on by one; `get_or d 0 0` is the byte after the star.
unfoldable pub my_str_compare : Bytes → Bytes → Bool
my_str_compare [] dst = complete [] dst
my_str_compare (c ∷ s) [] = false
my_str_compare (c ∷ s) (p ∷ d) =
    let here = my_str_compare s d in
    let after = my_str_compare (skip_to (get_or d 0 0) (c ∷ s)) d in
    if p == b'*'
    then (if is_nil d then true else after)
    else (if p == b'?' || p == c then here else false)

-- `s[i] |= 0x20` on a letter from A to Z adds 32 to it.
unfoldable pub ascii_lower : Bytes → Bytes
ascii_lower s = map (λ c. if is_upper c then c + 32 else c) s

-- What a pattern stands for: `*` any bytes, `?` any byte, any other byte itself.
pub data Glob : Bytes → Bytes → Type 0 where
  end : Glob [] []
  byte : {c : ℕ} {s d : Bytes} → Glob s d → Glob (c ∷ s) (c ∷ d)
  any : {c : ℕ} {s d : Bytes} → Glob s d → Glob (c ∷ s) (b'?' ∷ d)
  star_none : {s d : Bytes} → Glob s d → Glob s (b'*' ∷ d)
  star_byte : {c : ℕ} {s d : Bytes} → Glob s (b'*' ∷ d) → Glob (c ∷ s) (b'*' ∷ d)

star_all : (s : Bytes) → Glob s (b'*' ∷ [])
star_all [] = star_none end
star_all (c ∷ s) = star_byte (star_all s)

star_step :
    (b : Bool) (x q : ℕ) (s d : Bytes)
    → (Glob (skip_to q s) d → Glob s (b'*' ∷ d))
    → Glob (if b then x ∷ s else skip_to q s) d
    → Glob (x ∷ s) (b'*' ∷ d)
star_step true x q s d ih g = star_none g
star_step false x q s d ih g = star_byte (ih g)

star_skip_to : (q : ℕ) (s d : Bytes) → Glob (skip_to q s) d → Glob s (b'*' ∷ d)
unfolding skip_to
star_skip_to q [] d g = star_none g
star_skip_to q (x ∷ s) d g = star_step (x == q) x q s d (star_skip_to q s d) g

-- How a turn of the loop comes to accept.
turn :
    (star question same nil after here : Bool)
    → (if star then (if nil then true else after) else (if question || same then here else false))
      ≡ true
    → ((star ≡ true) × ((nil ≡ true) ⊎ (after ≡ true)))
      ⊎ (((question ≡ true) ⊎ (same ≡ true)) × (here ≡ true))
turn true question same true after here e = inl (refl, inl refl)
turn true question same false after here e = inl (refl, inr e)
turn false true same nil after here e = inr (inl refl, e)
turn false false true nil after here e = inr (inr refl, e)
turn false false false nil after here e = cc e

byte_eq : (c p : ℕ) (s d : Bytes) → c ≡ p → Glob (c ∷ s) (c ∷ d) → Glob (c ∷ s) (p ∷ d)
byte_eq c p s d e g = rw (sym e) g

star_eq : (p : ℕ) (s d : Bytes) → (p == b'*') ≡ true → Glob s (b'*' ∷ d) → Glob s (p ∷ d)
star_eq p s d e g = rw ((==_iff p b'*').0 e) g

any_eq : (p c : ℕ) (s d : Bytes) → (p == b'?') ≡ true → Glob s d → Glob (c ∷ s) (p ∷ d)
any_eq p c s d e g = rw ((==_iff p b'?').0 e) (any g)

same_eq : (p c : ℕ) (s d : Bytes) → (p == c) ≡ true → Glob s d → Glob (c ∷ s) (p ∷ d)
same_eq p c s d e g = rw ((==_iff p c).0 e) (byte g)

nil_all : (s d : Bytes) → is_nil d ≡ true → Glob s (b'*' ∷ d)
nil_all s [] e = star_all s
nil_all s (x ∷ d) e = cc e

complete-Glob : (dst : Bytes) → complete [] dst ≡ true → Glob [] dst
unfolding complete
complete-Glob [] e = end
complete-Glob (p ∷ []) e = star_eq p [] [] e (star_none end)
complete-Glob (p ∷ q ∷ d) e = cc e

-- If my_str_compare accepts, the pattern stands for the string: each `*` for some bytes, each `?`
-- for one byte, and every other byte for itself.
pub my_str_compare-Glob : (src dst : Bytes) → my_str_compare src dst ≡ true → Glob src dst
unfolding my_str_compare
my_str_compare-Glob [] dst e = complete-Glob dst e
my_str_compare-Glob (c ∷ s) [] e = cc e
my_str_compare-Glob (c ∷ s) (p ∷ d) e =
    elim (turn (p == b'*') (p == b'?') (p == c) (is_nil d)
      (my_str_compare (skip_to (get_or d 0 0) (c ∷ s)) d) (my_str_compare s d) e) [
        | inl (star, inl nil) ↦ star_eq p (c ∷ s) d star (nil_all (c ∷ s) d nil)
        | inl (star, inr after) ↦ star_eq p (c ∷ s) d star (
            star_skip_to (get_or d 0 0) (c ∷ s) d
              (my_str_compare-Glob (skip_to (get_or d 0 0) (c ∷ s)) d after))
        | inr (inl question, here) ↦ any_eq p c s d question (my_str_compare-Glob s d here)
        | inr (inr same, here) ↦ same_eq p c s d same (my_str_compare-Glob s d here)
      ]

-- No byte but the last one is a star.
abbrev pub IsStarLast : Bytes → Type 0
IsStarLast [] = Unit
IsStarLast (p ∷ []) = Unit
IsStarLast (p ∷ q ∷ d) = ((p == b'*') ≡ false) × IsStarLast (q ∷ d)

tail-IsStarLast : (p : ℕ) (d : Bytes) → IsStarLast (p ∷ d) → IsStarLast d
tail-IsStarLast p [] h = tt
tail-IsStarLast p (q ∷ d) h = h.1

accepts_byte :
    (c p : ℕ) (s d : Bytes)
    → IsStarLast (p ∷ d)
    → (p == b'?' || p == c) ≡ true
    → my_str_compare s d ≡ true
    → my_str_compare (c ∷ s) (p ∷ d) ≡ true
unfolding my_str_compare
accepts_byte c p s [] h e r = ground arith
accepts_byte c p s (q ∷ d) h e r = ground arith

accepts_star : (s : Bytes) → my_str_compare s (b'*' ∷ []) ≡ true
unfolding my_str_compare complete
accepts_star [] = refl
accepts_star (c ∷ s) = refl

star_end : (d : Bytes) → IsStarLast (b'*' ∷ d) → d ≡ []
star_end [] h = refl
star_end (q ∷ d) h = cc h.0

-- If a pattern whose only star, if it has one, is its last byte stands for a string, then
-- my_str_compare accepts the two.
pub my_str_compare_complete :
    (src dst : Bytes) → IsStarLast dst → Glob src dst → my_str_compare src dst ≡ true
unfolding my_str_compare complete
my_str_compare_complete _ _ h end = refl
my_str_compare_complete _ _ h (byte {c} {s} {d} g) =
    accepts_byte c c s d h (ground arith) (my_str_compare_complete s d (tail-IsStarLast c d h) g)
my_str_compare_complete _ _ h (any {c} {s} {d} g) =
    accepts_byte c b'?' s d h refl (my_str_compare_complete s d (tail-IsStarLast b'?' d h) g)
my_str_compare_complete s _ h (star_none {s = s'} {d} g) = rw (star_end d h) (accepts_star s')
my_str_compare_complete _ _ h (star_byte {c} {s} {d} g) = rw (star_end d h) (accepts_star (c ∷ s))
