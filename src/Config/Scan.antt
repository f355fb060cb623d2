-- ===== src/Config/Scan.antt =====
-- The C library's searches, on the lines that `config_to_data` writes.
use wzdftpd.Base.{
  ℕ, ◌+◌, ◌-◌, true, false, [], ◌∷◌, ◌++◌, some, Bytes, ◌≡◌, refl, sym, ap, ◌∙◌, inl, inr,
  Bool-cases, ltb, ltb→lt, arith, ◌==◌, length, length-append, take, drop, take_all,
  take-length-append, has_char, index_of, last_index_of, skip_spaces, trim_end, keep_head, is_space,
  ends_with, drop-append_next, All-append, append_assoc,
}
use wzdftpd.Config.Feed.{Without, IsLine}
use wzdftpd.Config.Parse.{value_start, value_text}

pub index_of-append :
    (b : ℕ) (s rest : Bytes) → Without b s → index_of b (s ++ (b ∷ rest)) ≡ some (length s)
unfolding index_of
index_of-append b [] rest h = ground arith
index_of-append b (c ∷ s) rest h = ground (arith, index_of-append b s rest)

pub has_char-append : (b : ℕ) (s rest : Bytes) → has_char b (s ++ (b ∷ rest)) ≡ true
unfolding has_char
has_char-append b [] rest = ground arith
has_char-append b (c ∷ s) rest = ground (arith, has_char-append b s rest)

pub last_index_of-append : (b : ℕ) (s : Bytes) → last_index_of b (s ++ b ∷ []) ≡ some (length s)
unfolding last_index_of
last_index_of-append b [] = ground arith
last_index_of-append b (c ∷ s) = ground (arith, last_index_of-append b s)

pub trim_end-space : (s : Bytes) → trim_end (s ++ 32 ∷ []) ≡ trim_end s
unfolding trim_end
trim_end-space [] = refl
trim_end-space (c ∷ s) = ap (keep_head c) (trim_end-space s)

pub ends_with-append :
    (b x : ℕ) (s rest : Bytes) → ends_with b (s ++ x ∷ rest) ≡ ends_with b (x ∷ rest)
unfolding ends_with
ends_with-append b x [] rest = refl
ends_with-append b x (c ∷ []) rest = refl
ends_with-append b x (c ∷ d ∷ s) rest = ends_with-append b x (d ∷ s) rest

pub Without-append : (b : ℕ) (s t : Bytes) → Without b s → Without b t → Without b (s ++ t)
Without-append b s t h k = All-append (λ c. (c == b) ≡ false) s t h k

-- A key that the printer can write, `c` its first byte.
pub record IsKey (c : ℕ) (cs : Bytes) : Type 0 where
  pub front : is_space c ≡ false
  pub back : trim_end (c ∷ cs) ≡ c ∷ cs
  pub no_hash : (c == b'#') ≡ false
  pub no_bracket : (c == b'[') ≡ false
  pub no_equals : Without b'=' (c ∷ cs)
  pub one_line : Without b'\n' (c ∷ cs)

-- A value that the printer can write: no space at the front or at the end, one line, and no `\`
-- at the end.
pub record IsValue (s : Bytes) : Type 0 where
  pub front : skip_spaces s ≡ s
  pub back : trim_end s ≡ s
  pub one_line : Without b'\n' s
  pub no_return : ends_with b'\r' s ≡ false
  pub no_join : ends_with b'\\' s ≡ false

value_text_lem :
    (line : Bytes) (len start : ℕ) (v : Bytes)
    → drop start line ≡ v
    → len ≡ start + length v
    → trim_end v ≡ v
    → value_text line len start ≡ v
value_text_lem line len start v d e t = elim (Bool-cases (ltb len start)) [
  | inl h ↦ absurd (omega (arith, ltb→lt len start h))
  | inr h ↦ rw (h, d, take_all (len - start) v (omega arith)) t
]

ends_value :
    (b : ℕ) (v : Bytes)
    → (32 == b) ≡ false
    → ends_with b v ≡ false
    → ends_with b (b'=' ∷ 32 ∷ v) ≡ false
unfolding ends_with
ends_value b [] h k = h
ends_value b (x ∷ v) h k = k

-- The line up to the `=`, and the line.
abbrev pub before : ℕ → Bytes → Bytes
before c cs = c ∷ (cs ++ 32 ∷ [])

abbrev pub pair_line : ℕ → Bytes → Bytes → Bytes
pair_line c cs v = before c cs ++ (b'=' ∷ 32 ∷ v)

module _ (c : ℕ) (cs v : Bytes) (key : IsKey c cs) (value : IsValue v) where
  pub pair-IsLine : IsLine (pair_line c cs v)
  pair-IsLine = record {
    whole = (
      key.one_line.0,
      Without-append b'\n' (cs ++ 32 ∷ []) _ (Without-append b'\n' cs _ key.one_line.1 (refl, tt))
          (refl, (refl, value.one_line)),
    );
    no_return =
        ends_with-append b'\r' b'=' (before c cs) (32 ∷ v)
        ∙ ends_value b'\r' v refl value.no_return;
    no_join =
        ends_with-append b'\\' b'=' (before c cs) (32 ∷ v) ∙ ends_value b'\\' v refl value.no_join;
  }

  pub pair_index : index_of b'=' (pair_line c cs v) ≡ some (length (before c cs))
  pair_index =
      index_of-append b'=' (before c cs) (32 ∷ v)
        (Without-append b'=' (c ∷ cs) (32 ∷ []) key.no_equals (refl, tt))

  pub pair_key : trim_end (take (length (before c cs)) (pair_line c cs v)) ≡ c ∷ cs
  pair_key =
      ap trim_end (take-length-append (before c cs) (b'=' ∷ 32 ∷ v))
      ∙ trim_end-space (c ∷ cs)
      ∙ key.back

  -- One space stands in front of the value.
  start :
      length (before c cs) + 1 + (length (32 ∷ v) - length (skip_spaces (32 ∷ v)))
      ≡ length (before c cs) + 2
  unfolding skip_spaces
  start = rw value.front (omega arith)

  pub pair_start : value_start (pair_line c cs v) (length (before c cs)) ≡ length (before c cs) + 2
  pair_start =
      ap (λ s. length (before c cs) + 1 + (length s - length (skip_spaces s)))
        (drop-append_next (before c cs) (32 ∷ v) b'=' _ (omega arith))
      ∙ start

  behind : drop (length (before c cs) + 2) (pair_line c cs v) ≡ v
  behind =
      ap (drop (length (before c cs) + 2)) (sym (append_assoc (before c cs) (b'=' ∷ []) (32 ∷ v)))
      ∙ drop-append_next ((before c cs) ++ b'=' ∷ []) v 32 _
          (omega (arith, length-append (before c cs) (b'=' ∷ [])))

  pub pair_value :
      value_text (pair_line c cs v) (length (pair_line c cs v)) (length (before c cs) + 2) ≡ v
  pair_value =
      value_text_lem (pair_line c cs v) (length (pair_line c cs v)) (length (before c cs) + 2) v
        behind (omega (arith, length-append (before c cs) (b'=' ∷ 32 ∷ v))) value.back
