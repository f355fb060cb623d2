-- ===== src/Perm/Kept.antt =====
-- libwzd-core/wzd_perm.c: what perm_add_perm leaves alone.
use wzdftpd.Base.{
  ℕ, zero, suc, Bool, true, false, ◌||◌, List, [], ◌∷◌, ◌++◌, map, to_lower, Option, none, some,
  Bytes, ◌≡◌, refl, sym, ◌∙◌, ap, ◌⊎◌, arith, if◌then◌else◌, leb, length, get_elem?, set, drop,
  str_case_eq, Bool-cases, Option-cases, inl, inr,
}
use mathlib.Core.Option.{or_else}
use wzdftpd.Perm.{
  Cp, Perm, perm_at, perm_find, perm_find_create, find_same_entry, perm_find_create_entry,
}
use wzdftpd.Perm.Add.{
  buffer_len, strtok_r, Added, refused, read_mark, c_string, add_tokens, put, add_line, is_nil,
  perm_add_perm,
}
use wzdftpd.Perm.Edit.{empty_perm, perm_find_create-perm_find}
use wzdftpd.Perm.Names.{command, command-perm_find, IsValid, case_congr}

create_entry-name :
    (target : Bytes) (cp : Cp) (perm : Perm)
    → (perm_find_create_entry target cp perm).0.command_name ≡ perm.command_name
unfolding perm_find_create_entry
create_entry-name target cp perm = elim (Option-cases (find_same_entry target cp perm.entry_list)) [
  | inl h ↦ rw (h, perm_find_create_entry) refl
  | inr (i, h) ↦ rw (h, perm_find_create_entry) refl
]

-- The name of what add_tokens gives, if it gives anything.
abbrev Named : Bytes → Option Perm → Type 0
Named name none = Unit
Named name (some perm) = perm.command_name ≡ name

moved_name : (a b : Bytes) (o : Option Perm) → a ≡ b → Named a o → Named b o
moved_name a b none e n = tt
moved_name a b (some perm) e n = n ∙ e

add_tokens-Named :
    (fuel : ℕ) (b : Bytes) (ptr : ℕ) (perm : Perm)
    → Named perm.command_name (add_tokens fuel b ptr perm)
unfolding add_tokens
add_tokens-Named zero b ptr perm = refl
add_tokens-Named (suc fuel) b ptr perm = elim (Option-cases (strtok_r b ptr)) [
  | inl h ↦ rw (h, Named) refl
  | inr ((token, b', ptr'), h) ↦ elim (Option-cases (read_mark (length b) b' token)) [
    | inl k ↦ rw (h, k, Named) tt
    | inr ((cp, target, b''), k) ↦
        rw (h, k, Named)
          (moved_name (perm_find_create_entry (c_string (drop target b'')) cp perm).0.command_name
            perm.command_name
            (add_tokens fuel b'' ptr'
              (perm_find_create_entry (c_string (drop target b'')) cp perm).0)
            (create_entry-name (c_string (drop target b'')) cp perm)
            (add_tokens-Named fuel b'' ptr'
              (perm_find_create_entry (c_string (drop target b'')) cp perm).0))
  ]
]

found_step :
    (b : Bool) (x p : Perm) (rest : Option Perm)
    → (if b then some x else rest) ≡ some p
    → ((b ≡ true) × (x ≡ p)) ⊎ (rest ≡ some p)
found_step true x p rest h = inl (refl, cc h)
found_step false x p rest h = inr h

command-name :
    (name : Bytes) (perms : List Perm) (p : Perm)
    → command name perms ≡ some p
    → str_case_eq p.command_name name ≡ true
unfolding command
command-name name [] p h = cc h
command-name name (x ∷ perms) p h =
    elim (found_step (str_case_eq x.command_name name) x p (command name perms) h) [
      | inl (e, k) ↦ ap (λ y. str_case_eq y.command_name name) (sym k) ∙ e
      | inr k ↦ command-name name perms p k
    ]

command-set :
    (q : Bytes) (perms : List Perm) (i : ℕ) (p r : Perm)
    → get_elem? perms i ≡ some p
    → r.command_name ≡ p.command_name
    → str_case_eq p.command_name q ≡ false
    → command q (set perms i r) ≡ command q perms
unfolding command
command-set q [] i p r g n s = refl
command-set q (x ∷ perms) zero p r g n s =
    let e : x ≡ p = cc g in
    let a : str_case_eq x.command_name q ≡ false = ap (λ y. str_case_eq y.command_name q) e ∙ s in
    let b : str_case_eq r.command_name q ≡ false = ap (λ m. str_case_eq m q) n ∙ s in rw (a, b) refl
command-set q (x ∷ perms) (suc i) p r g n s = ground (arith, command-set q perms i p r g n s)

-- What a name leads to after a call that comes back.
abbrev Keeps : Bytes → List Perm → Option (List Perm × Added) → Type 0
Keeps q perms none = Unit
Keeps q perms (some r) = command q r.0 ≡ command q perms

put-Keeps :
    (q : Bytes) (perms : List Perm) (i : ℕ) (p : Perm) (o : Option Perm)
    → get_elem? perms i ≡ some p
    → Named p.command_name o
    → str_case_eq p.command_name q ≡ false
    → Keeps q perms (put perms i o)
put-Keeps q perms i p none g n s = tt
put-Keeps q perms i p (some r) g n s = command-set q perms i p r g n s

add_line-Keeps :
    (name q line : Bytes) (perms : List Perm) (i : ℕ)
    → get_elem? perms i ≡ command name perms
    → str_case_eq name q ≡ false
    → Keeps q perms (add_line (perms, i) line)
add_line-Keeps name q line perms i g s = elim (Option-cases (get_elem? perms i)) [
  | inl h ↦ rw (h, add_line, Keeps) tt
  | inr (p, h) ↦
      rw (h, add_line, Keeps)
        (put-Keeps q perms i p (add_tokens (length line) (line ++ 0 ∷ []) 0 p) h
          (add_tokens-Named (length line) (line ++ 0 ∷ []) 0 p)
          (case_congr p.command_name name q (command-name name perms p (sym g ∙ h)) ∙ s))
]

or_else-none : (o : Option Perm) → or_else o none ≡ o
unfolding or_else
or_else-none none = refl
or_else-none (some p) = refl

created-other :
    (name q : Bytes) (perms : List Perm)
    → map to_lower name ≡ name
    → IsValid perms
    → str_case_eq name q ≡ false
    → command q (perm_find_create name perms).0 ≡ command q perms
created-other name q perms h v s =
    let (w, i, o) = perm_find_create-perm_find name q perms h v in
    sym (command-perm_find q (perm_find_create name perms).0)
    ∙ o
    ∙ ap
        (λ b.
          or_else (perm_at perms (perm_find q perms)) (if b then some (empty_perm name) else none))
        s
    ∙ or_else-none (perm_at perms (perm_find q perms))
    ∙ command-perm_find q perms

-- On a list of commands whose names are in lower case and differ, a call of perm_add_perm with a name
-- in lower case that adds the line (code 0) or refuses it (code 1) leaves what every other name leads to
-- as it was. Nothing is said of a line that makes the call read after the end of its buffer.
pub perm_add_perm-kept :
    (name q line : Bytes) (perms r : List Perm) (code : Added)
    → map to_lower name ≡ name
    → IsValid perms
    → str_case_eq name q ≡ false
    → perm_add_perm name line perms ≡ some (r, code)
    → perm_at r (perm_find q r) ≡ perm_at perms (perm_find q perms)
unfolding perm_add_perm
perm_add_perm-kept name q line perms r code h v s run =
    let c = perm_find_create name perms in
    elim (Bool-cases (is_nil name || is_nil line || leb buffer_len (length line))) [
      | inl e ↦
          let same : some (perms, refused) ≡ some (r, code) = rw e at run in
          ap (λ m. perm_at m (perm_find q m)) (cc same)
      | inr e ↦
          let run' : add_line c line ≡ some (r, code) = rw e at run in
          let k =
            add_line-Keeps name q line c.0 c.1
              ((perm_find_create-perm_find name name perms h v).1 ∙ command-perm_find name c.0) s in
          command-perm_find q r
          ∙ (rw (run', Keeps) at k)
          ∙ created-other name q perms h v s
          ∙ sym (command-perm_find q perms)
    ]
