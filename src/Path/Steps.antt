-- ===== src/Path/Steps.antt =====
-- One round of the loop of path_simplify on each form of what is left of the buffer.
use wzdftpd.Base.{
  ℕ, zero, suc, ◌+◌, ◌-◌, ◌≤◌, ◌<◌, true, false, [], ◌∷◌, ◌++◌, Bytes, ◌≡◌, ◌⊎◌, some, refl, ap,
  ◌∙◌, sym, arith, inl, inr, ◌==◌, ltb, length, set, take, drop, ==_iff, append_assoc, append-nil,
  length-append, length-set, str_eq, take-length-append,
}
use wzdftpd.Path.{
  slash, dot, at, is_here, is_up, back_to_slash, one_less, finish, simplify_from, starts_with,
}
use wzdftpd.Path.Machine.{
  Plain, at-drop, lt_of_drop, drop_next, length-drop_nil, take-set, drop-set, length-take, at-take,
  take-take, at-append, Plain-at, back_to_slash_lem,
}

-- The buffer holds `out` before `pos2`, `rest` from `pos` on, and a slash at its start.
pub record Cut (b : Bytes) (pos pos2 : ℕ) (out rest : Bytes) : Type 0 where
  pub written : take pos2 b ≡ out
  pub todo : drop pos b ≡ rest
  pub ordered : pos2 ≤ pos
  pub inside : pos ≤ length b
  pub rooted : at b 0 ≡ slash

abbrev pub shown : Bytes → Bytes
shown [] = slash ∷ []
shown (c ∷ p) = c ∷ p

-- From there the loop ends with `x`.
abbrev pub Yields : Bytes → Bytes → Bytes → Type 0
Yields out rest x =
    (fuel : ℕ) (b : Bytes) (pos pos2 : ℕ)
    → Cut b pos pos2 out rest
    → length rest < fuel
    → simplify_from fuel b pos pos2 ≡ some x

finish-take : (b : Bytes) (n : ℕ) → n ≤ length b → finish b n ≡ shown (take n b)
finish-take b zero h = refl
finish-take [] (suc n) h = absurd (omega arith)
finish-take (x ∷ b) (suc n) h = ground arith

not_end :
    (b : Bytes) (pos c : ℕ) (r : Bytes)
    → drop pos b ≡ c ∷ r
    → (ltb (length b) pos ≡ false) × ((pos == length b) ≡ false)
not_end b pos c r h = ground (arith, lt_of_drop b pos c r h)

at_here : (b : Bytes) (pos : ℕ) → at b pos ≡ at (drop pos b) 0
at_here b pos = ap (at b) (let e : pos ≡ 0 + pos = omega arith in e) ∙ at-drop b pos 0

at_next : (b : Bytes) (pos : ℕ) → at b (suc pos) ≡ at (drop pos b) 1
at_next b pos = ap (at b) (let e : suc pos ≡ 1 + pos = omega arith in e) ∙ at-drop b pos 1

pub Yields-nil : (out : Bytes) → Yields out [] (shown out)
unfolding simplify_from
Yields-nil out zero b pos pos2 c h = absurd (omega arith)
Yields-nil out (suc fuel) b pos pos2 c h =
    let e : pos ≡ length b = omega (arith, length-drop_nil b pos c.todo, c.inside) in
    let p : ltb (length b) pos ≡ false = ground arith in
    let q : (pos == length b) ≡ true = (==_iff pos (length b)).1 e in
    rw (p, q)
      (ap some (finish-take b pos2 (omega (arith, c.ordered, c.inside)) ∙ ap shown c.written))

at-set : (b : Bytes) (n v : ℕ) → at b 0 ≡ slash → (1 ≤ n) ⊎ (v ≡ slash) → at (set b n v) 0 ≡ slash
at-set [] n v e h = e
at-set (x ∷ b) zero v e h = ground arith
at-set (x ∷ b) (suc n) v e h = e

set-Cut :
    (b : Bytes) (pos pos2 : ℕ) (out rest : Bytes) (c v : ℕ)
    → Cut b pos pos2 out (c ∷ rest)
    → (1 ≤ pos2) ⊎ (v ≡ slash)
    → Cut (set b pos2 v) (suc pos) (suc pos2) (out ++ v ∷ []) rest
set-Cut b pos pos2 out rest c v k root = record {
  written =
      take-set b pos2 v (omega (arith, k.ordered, lt_of_drop b pos c rest k.todo))
      ∙ ap (λ o. o ++ v ∷ []) k.written;
  todo = drop-set b (suc pos) pos2 v (omega (arith, k.ordered)) ∙ drop_next b pos c rest k.todo;
  ordered = omega (arith, k.ordered);
  inside = omega (arith, length-set b pos2 v, lt_of_drop b pos c rest k.todo);
  rooted = at-set b pos2 v k.rooted root;
}

next-Cut :
    (b : Bytes) (pos pos2 : ℕ) (out rest : Bytes) (c : ℕ)
    → Cut b pos pos2 out (c ∷ rest)
    → Cut b (suc pos) pos2 out rest
next-Cut b pos pos2 out rest c k = record {
  written = k.written;
  todo = drop_next b pos c rest k.todo;
  ordered = omega (arith, k.ordered);
  inside = omega (arith, lt_of_drop b pos c rest k.todo);
  rooted = k.rooted;
}

up_not_here : (rest : Bytes) → is_here (slash ∷ dot ∷ dot ∷ rest) ≡ false
unfolding starts_with str_eq
up_not_here rest = refl

-- Taking the last component off what is written.
pop-Cut :
    (b : Bytes) (pos pos2 : ℕ) (out c rest : Bytes)
    → Cut b pos pos2 (out ++ slash ∷ c) rest
    → Plain c
    → 1 ≤ length c
    → (back_to_slash b (one_less pos2) ≡ length out)
      × (at b (length out) ≡ slash)
      × Cut b pos (length out) out rest
pop-Cut b pos pos2 out c rest k plain some_c =
    let n : length out + suc (length c) ≡ pos2 =
      sym (length-append out (slash ∷ c))
      ∙ ap length (sym k.written)
      ∙ length-take b pos2 (omega (arith, k.ordered, k.inside)) in
    let read : (j : ℕ) → j < suc (length c) → at b (j + length out) ≡ at (slash ∷ c) j = λ j h.
      sym (at-take b pos2 (j + length out) (omega arith))
      ∙ ap (λ t. at t (j + length out)) k.written
      ∙ at-append out (slash ∷ c) j in
    let mark : at b (length out) ≡ slash =
      ap (at b) (let e : length out ≡ 0 + length out = omega arith in e) ∙ read 0 (omega arith) in
    let less : one_less pos2 ≡ pos2 - 1 = ground arith in
    (
      rw less (
          back_to_slash_lem b (length out) (pos2 - 1) (omega arith) mark (λ i p q.
            let e : i ≡ suc (i - length out - 1) + length out = omega arith in
            rw (ap (at b) e ∙ read (suc (i - length out - 1)) (omega arith))
              (Plain-at c (i - length out - 1) plain))),
      mark,
      record {
        written =
            sym (take-take b (length out) pos2 (omega arith))
            ∙ ap (take (length out)) k.written
            ∙ take-length-append out (slash ∷ c);
        todo = k.todo;
        ordered = omega (arith, k.ordered);
        inside = k.inside;
        rooted = k.rooted;
      },
    )

module _ (x : Bytes) where
  pub Yields-copy :
      (out rest : Bytes) (c : ℕ)
      → (c == slash) ≡ false
      → 1 ≤ length out
      → Yields (out ++ c ∷ []) rest x
      → Yields out (c ∷ rest) x
  unfolding simplify_from
  Yields-copy out rest c plain some_out next zero b pos pos2 k h = absurd (omega arith)
  Yields-copy out rest c plain some_out next (suc fuel) b pos pos2 k h =
      let (p, q) = not_end b pos c rest k.todo in
      let here : at b pos ≡ c = at_here b pos ∙ ap (λ r. at r 0) k.todo in
      let n : length out ≡ pos2 =
        ap length (sym k.written) ∙ length-take b pos2 (omega (arith, k.ordered, k.inside)) in
      rw (p, q, here, plain)
        (next fuel (set b pos2 c) (suc pos) (suc pos2)
          (set-Cut b pos pos2 out rest c c k (inl (omega arith))) (omega arith))

  pub Yields-copies :
      (out c rest : Bytes)
      → Plain c
      → 1 ≤ length out
      → Yields (out ++ c) rest x
      → Yields out (c ++ rest) x
  Yields-copies out [] rest plain some_out next = rw (append-nil out) at next
  Yields-copies out (d ∷ c) rest plain some_out next =
      Yields-copy out (c ++ rest) d plain.0 some_out (
        Yields-copies (out ++ d ∷ []) c rest plain.1 (omega (arith, length-append out (d ∷ [])))
          (rw (append_assoc out (d ∷ []) c) next))

  pub Yields-put :
      (out rest : Bytes)
      → (at rest 0 == slash) ≡ false
      → is_here (slash ∷ rest) ≡ false
      → is_up (slash ∷ rest) ≡ false
      → Yields (out ++ slash ∷ []) rest x
      → Yields out (slash ∷ rest) x
  unfolding simplify_from
  Yields-put out rest plain not_here not_up next zero b pos pos2 k h = absurd (omega arith)
  Yields-put out rest plain not_here not_up next (suc fuel) b pos pos2 k h =
      let (p, q) = not_end b pos slash rest k.todo in
      let here : at b pos ≡ slash = at_here b pos ∙ ap (λ r. at r 0) k.todo in
      let then_ : at b (suc pos) ≡ at rest 0 = at_next b pos ∙ ap (λ r. at r 1) k.todo in
      rw (p, q, here, then_, plain, k.todo, not_here, not_up)
        (next fuel (set b pos2 slash) (suc pos) (suc pos2)
          (set-Cut b pos pos2 out rest slash slash k (inr refl)) (omega arith))

  pub Yields-skip :
      (out rest : Bytes) → Yields out (slash ∷ rest) x → Yields out (slash ∷ slash ∷ rest) x
  unfolding simplify_from
  Yields-skip out rest next zero b pos pos2 k h = absurd (omega arith)
  Yields-skip out rest next (suc fuel) b pos pos2 k h =
      let (p, q) = not_end b pos slash (slash ∷ rest) k.todo in
      let here : at b pos ≡ slash = at_here b pos ∙ ap (λ r. at r 0) k.todo in
      let then_ : at b (suc pos) ≡ slash = at_next b pos ∙ ap (λ r. at r 1) k.todo in
      rw (p, q, here, then_)
        (next fuel b (suc pos) pos2 (next-Cut b pos pos2 out (slash ∷ rest) slash k) (omega arith))

  pub Yields-here :
      (out rest : Bytes)
      → is_here (slash ∷ dot ∷ rest) ≡ true
      → Yields out rest x
      → Yields out (slash ∷ dot ∷ rest) x
  unfolding simplify_from
  Yields-here out rest is next zero b pos pos2 k h = absurd (omega arith)
  Yields-here out rest is next (suc fuel) b pos pos2 k h =
      let (p, q) = not_end b pos slash (dot ∷ rest) k.todo in
      let here : at b pos ≡ slash = at_here b pos ∙ ap (λ r. at r 0) k.todo in
      let then_ : at b (suc pos) ≡ dot = at_next b pos ∙ ap (λ r. at r 1) k.todo in
      rw (p, q, here, then_, k.todo, is)
        (next fuel b (suc (suc pos)) pos2
          (next-Cut b (suc pos) pos2 out rest dot (next-Cut b pos pos2 out (dot ∷ rest) slash k))
          (omega arith))

  pub Yields-up :
      (out c rest : Bytes)
      → Plain c
      → 1 ≤ length c
      → is_up (slash ∷ dot ∷ dot ∷ rest) ≡ true
      → Yields out rest x
      → Yields (out ++ slash ∷ c) (slash ∷ dot ∷ dot ∷ rest) x
  unfolding simplify_from
  Yields-up out c rest plain some_c is next zero b pos pos2 k h = absurd (omega arith)
  Yields-up out c rest plain some_c is next (suc fuel) b pos pos2 k h =
      let (p, q) = not_end b pos slash (dot ∷ dot ∷ rest) k.todo in
      let here : at b pos ≡ slash = at_here b pos ∙ ap (λ r. at r 0) k.todo in
      let then_ : at b (suc pos) ≡ dot = at_next b pos ∙ ap (λ r. at r 1) k.todo in
      let k1 = next-Cut b pos pos2 (out ++ slash ∷ c) (dot ∷ dot ∷ rest) slash k in
      let k2 = next-Cut b (suc pos) pos2 (out ++ slash ∷ c) (dot ∷ rest) dot k1 in
      let k3 = next-Cut b (suc (suc pos)) pos2 (out ++ slash ∷ c) rest dot k2 in
      let (up, mark, k4) = pop-Cut b (suc (suc (suc pos))) pos2 out c rest k3 plain some_c in
      let e : pos + 3 ≡ suc (suc (suc pos)) = omega arith in
      rw (p, q, here, then_, k.todo, up_not_here rest, is, up, mark, e)
        (next fuel b (suc (suc (suc pos))) (length out) k4 (omega arith))

  pub Yields-up_root :
      (rest : Bytes)
      → is_up (slash ∷ dot ∷ dot ∷ rest) ≡ true
      → Yields [] rest x
      → Yields [] (slash ∷ dot ∷ dot ∷ rest) x
  unfolding simplify_from back_to_slash
  Yields-up_root rest is next zero b pos pos2 k h = absurd (omega arith)
  Yields-up_root rest is next (suc fuel) b pos (suc pos2) k h = absurd (
      omega
        (arith, length-take b (suc pos2) (omega (arith, k.ordered, k.inside)), ap length k.written))
  Yields-up_root rest is next (suc fuel) b pos zero k h =
      let (p, q) = not_end b pos slash (dot ∷ dot ∷ rest) k.todo in
      let here : at b pos ≡ slash = at_here b pos ∙ ap (λ r. at r 0) k.todo in
      let then_ : at b (suc pos) ≡ dot = at_next b pos ∙ ap (λ r. at r 1) k.todo in
      let k1 = next-Cut b pos 0 [] (dot ∷ dot ∷ rest) slash k in
      let k2 = next-Cut b (suc pos) 0 [] (dot ∷ rest) dot k1 in
      let k3 = next-Cut b (suc (suc pos)) 0 [] rest dot k2 in
      let e : pos + 3 ≡ suc (suc (suc pos)) = omega arith in
      rw (p, q, here, then_, k.todo, up_not_here rest, is, k.rooted, e)
        (next fuel b (suc (suc (suc pos))) 0 k3 (omega arith))
