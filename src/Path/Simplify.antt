-- ===== src/Path/Simplify.antt =====
-- path_simplify against a reference on the components of a path: double slashes and "." go, ".." takes
-- the component before it away, and nothing goes above the root.
use wzdftpd.Base.{
  ℕ, suc, ◌≤◌, Bool, true, false, List, [], ◌∷◌, ◌++◌, Bytes, ◌≡◌, some, refl, arith, inl, inr,
  if◌then◌else◌, length, All, Bool-cases, append_assoc, length-append, str_eq, str_eq_iff,
}
use wzdftpd.Path.{slash, dot, is_here, is_up, starts_with, path_simplify}
use wzdftpd.Path.Machine.{Plain}
use wzdftpd.Path.Steps.{
  Yields, shown, Yields-nil, Yields-copies, Yields-put, Yields-skip, Yields-here, Yields-up,
  Yields-up_root,
}

abbrev pub is_nil : {A : Type 0} → List A → Bool
is_nil [] = true
is_nil (x ∷ xs) = false

abbrev pub tail : List Bytes → List Bytes
tail [] = []
tail (c ∷ st) = st

-- The components read so far, the last one first, after one more. The empty one after a slash at the
-- end stays.
abbrev pub enter : List Bytes → Bytes → Bool → List Bytes
enter st c last =
    if is_nil c
    then (if last then [] ∷ st else st)
    else (if str_eq c (dot ∷ [])
        then st
        else (if str_eq c (dot ∷ dot ∷ []) then tail st else c ∷ st))

unfoldable pub normalize : List Bytes → List Bytes → List Bytes
normalize st [] = st
normalize st (c ∷ cs) = normalize (enter st c (is_nil cs)) cs

-- The path of the components, each after a slash.
abbrev pub join : List Bytes → Bytes
join [] = []
join (c ∷ cs) = slash ∷ c ++ join cs

-- The path of components that stand in reverse.
abbrev pub render : List Bytes → Bytes
render [] = []
render (c ∷ st) = render st ++ slash ∷ c

abbrev Stacked : List Bytes → Type 0
Stacked st = All (λ c. Plain c × (1 ≤ length c)) st

here-join : (cs : List Bytes) → is_here (slash ∷ dot ∷ join cs) ≡ true
unfolding starts_with str_eq
here-join [] = refl
here-join (c ∷ cs) = refl

up-join : (cs : List Bytes) → is_up (slash ∷ dot ∷ dot ∷ join cs) ≡ true
unfolding starts_with str_eq
up-join [] = refl
up-join (c ∷ cs) = refl

not_here :
    (x : ℕ) (c : Bytes) (cs : List Bytes)
    → Plain (x ∷ c)
    → str_eq (x ∷ c) (dot ∷ []) ≡ false
    → is_here (slash ∷ x ∷ c ++ join cs) ≡ false
unfolding starts_with str_eq
not_here x [] [] p h = ground arith
not_here x [] (c ∷ cs) p h = ground arith
not_here x (y ∷ c) cs p h = ground arith

not_up :
    (x : ℕ) (c : Bytes) (cs : List Bytes)
    → Plain (x ∷ c)
    → str_eq (x ∷ c) (dot ∷ dot ∷ []) ≡ false
    → is_up (slash ∷ x ∷ c ++ join cs) ≡ false
unfolding starts_with str_eq
not_up x [] [] p h = ground arith
not_up x [] (c ∷ cs) p h = ground arith
not_up x (y ∷ []) [] p h = ground arith
not_up x (y ∷ []) (c ∷ cs) p h = ground arith
not_up x (y ∷ z ∷ c) cs p h = ground arith

module _ (cs : List Bytes) (x : Bytes) where
  run_here :
      (st : List Bytes) (c : Bytes)
      → c ≡ dot ∷ []
      → Yields (render st) (join cs) x
      → Yields (render st) (slash ∷ c ++ join cs) x
  run_here st c e next = rw e (Yields-here x (render st) (join cs) (here-join cs) next)

  run_up :
      (st : List Bytes) (c : Bytes)
      → c ≡ dot ∷ dot ∷ []
      → Stacked st
      → Yields (render (tail st)) (join cs) x
      → Yields (render st) (slash ∷ c ++ join cs) x
  run_up [] c e q next = rw e (Yields-up_root x (join cs) (up-join cs) next)
  run_up (d ∷ st) c e q next =
      rw e (Yields-up x (render st) d (join cs) q.0.0 q.0.1 (up-join cs) next)

  run_enter :
      (st : List Bytes) (y : ℕ) (c : Bytes)
      → Plain (y ∷ c)
      → str_eq (y ∷ c) (dot ∷ []) ≡ false
      → str_eq (y ∷ c) (dot ∷ dot ∷ []) ≡ false
      → Yields (render ((y ∷ c) ∷ st)) (join cs) x
      → Yields (render st) (slash ∷ y ∷ c ++ join cs) x
  run_enter st y c p h k next =
      Yields-put x (render st) (y ∷ c ++ join cs) p.0 (not_here y c cs p h) (not_up y c cs p k) (
        Yields-copies x (render st ++ slash ∷ []) (y ∷ c) (join cs) p
          (omega (arith, length-append (render st) (slash ∷ [])))
          (rw (append_assoc (render st) (slash ∷ []) (y ∷ c)) next))

tail-Stacked : (st : List Bytes) → Stacked st → Stacked (tail st)
tail-Stacked [] q = q
tail-Stacked (c ∷ st) q = q.1

run_next :
    (x : ℕ) (c : Bytes) (cs st : List Bytes)
    → Plain (x ∷ c) × All Plain cs
    → Stacked st
    → ((st' : List Bytes)
        → All Plain cs
        → Stacked st'
        → Yields (render st') (join cs) (shown (render (normalize st' cs))))
    → Yields
        (render st)
        (slash ∷ x ∷ c ++ join cs)
        (shown (render (normalize (enter st (x ∷ c) (is_nil cs)) cs)))
run_next x c cs st p q next = elim (Bool-cases (str_eq (x ∷ c) (dot ∷ []))) [
  | inl h ↦ rw h (run_here cs _ st (x ∷ c) ((str_eq_iff (x ∷ c) (dot ∷ [])).0 h) (next st p.1 q))
  | inr h ↦ elim (Bool-cases (str_eq (x ∷ c) (dot ∷ dot ∷ []))) [
    | inl k ↦
        rw (h, k)
          (run_up cs _ st (x ∷ c) ((str_eq_iff (x ∷ c) (dot ∷ dot ∷ [])).0 k) q
            (next (tail st) p.1 (tail-Stacked st q)))
    | inr k ↦
        rw (h, k) (run_enter cs _ st x c p.0 h k (next ((x ∷ c) ∷ st) p.1 ((p.0, omega arith), q)))
  ]
]

run :
    (cs st : List Bytes)
    → All Plain cs
    → Stacked st
    → Yields (render st) (join cs) (shown (render (normalize st cs)))
unfolding normalize starts_with str_eq
run [] st p q = Yields-nil (render st)
run ([] ∷ []) st p q =
    Yields-put (shown (render st ++ slash ∷ [])) (render st) [] refl refl refl
      (Yields-nil (render st ++ slash ∷ []))
run ([] ∷ d ∷ cs) st p q =
    Yields-skip (shown (render (normalize st (d ∷ cs)))) (render st) (d ++ join cs)
      (run (d ∷ cs) st p.1 q)
run ((x ∷ c) ∷ cs) st p q = run_next x c cs st p q (run cs)

-- The path that the reference makes of components.
abbrev pub simplified : List Bytes → Bytes
simplified cs = shown (render (normalize [] cs))

abbrev pub IsName : Bytes → Type 0
IsName c = Plain c × (str_eq c (dot ∷ []) ≡ false) × (str_eq c (dot ∷ dot ∷ []) ≡ false)

tail-IsName : (st : List Bytes) → All IsName st → All IsName (tail st)
tail-IsName [] q = q
tail-IsName (c ∷ st) q = q.1

enter-IsName :
    (x : ℕ) (c : Bytes) (st : List Bytes) (last : Bool)
    → Plain (x ∷ c)
    → All IsName st
    → All IsName (enter st (x ∷ c) last)
enter-IsName x c st last p q = elim (Bool-cases (str_eq (x ∷ c) (dot ∷ []))) [
  | inl h ↦ rw h q
  | inr h ↦ elim (Bool-cases (str_eq (x ∷ c) (dot ∷ dot ∷ []))) [
    | inl k ↦ rw (h, k) (tail-IsName st q)
    | inr k ↦ rw (h, k) ((p, h, k), q)
  ]
]

normalize-IsName :
    (cs st : List Bytes) → All Plain cs → All IsName st → All IsName (normalize st cs)
unfolding normalize str_eq
normalize-IsName [] st p q = q
normalize-IsName ([] ∷ []) st p q = ((tt, refl, refl), q)
normalize-IsName ([] ∷ d ∷ cs) st p q = normalize-IsName (d ∷ cs) st p.1 q
normalize-IsName ((x ∷ c) ∷ cs) st p q =
    normalize-IsName cs (enter st (x ∷ c) (is_nil cs)) p.1 (enter-IsName x c st (is_nil cs) p.0 q)

-- For a path that starts with a slash, given by its components, path_simplify stays in its buffer and
-- gives the path of the components that are left when empty ones (but the last) and "." are dropped
-- and each ".." takes away the one before it, where there is one; or "/" where none is left. None of
-- the components left is "." or "..", and none has a slash.
pub path_simplify-join :
    (c : Bytes) (cs : List Bytes)
    → All Plain (c ∷ cs)
    → (path_simplify (join (c ∷ cs)) ≡ some (simplified (c ∷ cs)))
      × All IsName (normalize [] (c ∷ cs))
unfolding path_simplify
path_simplify-join c cs p = (
  run (c ∷ cs) [] p tt (suc (length (join (c ∷ cs)))) (join (c ∷ cs)) 0 0
      (record {
        written = refl;
        todo = refl;
        ordered = omega arith;
        inside = omega arith;
        rooted = refl;
      })
      (omega arith),
  normalize-IsName (c ∷ cs) [] p tt,
)
