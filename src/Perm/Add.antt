-- ===== src/Perm/Add.antt =====
-- libwzd-core/wzd_perm.c: perm_add_perm. It cuts a copy of the line at spaces, in place: the copy is the
-- list of its bytes with the terminator at its end, and `token` and `ptr` are indices into it.
use wzdftpd.Base.{
  ℕ, zero, suc, ◌-◌, Bool, true, false, ◌||◌, List, [], ◌∷◌, ◌++◌, Option, none, some, Bytes,
  if◌then◌else◌, ◌==◌, leb, length, get_elem?, get_or, set, drop, has_char,
}
use wzdftpd.Perm.{
  Cp, cperm_user, cperm_group, cperm_flag, Perm, perm_find_create, perm_find_create_entry,
}

abbrev pub buffer_len : ℕ
buffer_len = 2048

-- The delimiters of strtok_r
abbrev pub delimiters : Bytes
delimiters = b' ' ∷ b'\t' ∷ b'\r' ∷ b'\n' ∷ []

-- The first index from `i` on that is no delimiter, with the length of the buffer as fuel.
unfoldable pub skip_delimiters : ℕ → Bytes → ℕ → ℕ
skip_delimiters zero b i = i
skip_delimiters (suc fuel) b i =
    let on = skip_delimiters fuel b (suc i) in if has_char (get_or b i 0) delimiters then on else i

-- The first index from `i` on that is a delimiter or the terminator.
unfoldable pub token_end : ℕ → Bytes → ℕ → ℕ
token_end zero b i = i
token_end (suc fuel) b i =
    let on = token_end fuel b (suc i) in
    if get_or b i 0 == 0 || has_char (get_or b i 0) delimiters then i else on

-- The token, the buffer and `ptr` after `strtok_r(NULL, delimiters, &ptr)`.
unfoldable pub strtok_r : Bytes → ℕ → Option (ℕ × Bytes × ℕ)
strtok_r b ptr =
    let s = skip_delimiters (length b) b ptr in
    let e = token_end (length b) b s in
    if get_or b s 0 == 0
    then none
    else (if get_or b e 0 == 0 then some (s, b, e) else some (s, set b e 0, suc e))

-- The kind that a mark stands for, and whether `token` goes back onto the mark.
abbrev pub mark : ℕ → Option (Cp × Bool)
mark c =
    if c == b'='
    then some (cperm_user, false)
    else (if c == b'-'
        then some (cperm_group, false)
        else (if c == b'+'
            then some (cperm_flag, false)
            else (if c == b'*' then some (cperm_user, true) else none)))

-- The entry that a token gives: the buffer, in which a `!` may have been written, and the index of the
-- target. The `continue` for an unknown mark goes on with the next byte, whatever it is; `none` where
-- that reads after the end of the buffer.
unfoldable pub read_mark : ℕ → Bytes → ℕ → Option (Cp × ℕ × Bytes)
read_mark zero b token = none
read_mark (suc fuel) b token =
    let negated = get_or b token 0 == b'!' in
    let at = if negated then suc token else token in
    let again = read_mark fuel b (suc at) in
    if leb (length b) at then none else elim (mark (get_or b at 0)) [
      | none ↦ again
      | some (cp, back) ↦
          (let target = if back then at else suc at in
            if negated
            then some (cp, target - 1, set b (target - 1) b'!')
            else some (cp, target, b))
    ]

-- The bytes up to the first terminator.
unfoldable pub c_string : Bytes → Bytes
c_string [] = []
c_string (c ∷ s) = if c == 0 then [] else c ∷ c_string s

-- The loop over the tokens; `none` where it reads after the end of the buffer.
unfoldable pub add_tokens : ℕ → Bytes → ℕ → Perm → Option Perm
add_tokens zero b ptr perm = some perm
add_tokens (suc fuel) b ptr perm = elim (strtok_r b ptr) [
  | none ↦ some perm
  | some (token, b', ptr') ↦ elim (read_mark (length b) b' token) [
    | none ↦ none
    | some (cp, target, b'') ↦
        add_tokens fuel b'' ptr' (perm_find_create_entry (c_string (drop target b'')) cp perm).0
  ]
]

-- 0 and 1
pub data Added : Type 0 where
  added refused : Added

abbrev pub put : List Perm → ℕ → Option Perm → Option (List Perm × Added)
put perms i none = none
put perms i (some perm) = some (set perms i perm, added)

abbrev pub add_line : List Perm × ℕ → Bytes → Option (List Perm × Added)
add_line (perms, i) line = elim (get_elem? perms i) [
  | none ↦ none
  | some perm ↦ put perms i (add_tokens (length line) (line ++ 0 ∷ []) 0 perm)
]

abbrev pub is_nil : Bytes → Bool
is_nil [] = true
is_nil (c ∷ s) = false

-- The list and the code; `none` where the loop reads after the end of the buffer, which leaves nothing
-- that can be said of the memory.
unfoldable pub perm_add_perm : Bytes → Bytes → List Perm → Option (List Perm × Added)
perm_add_perm permname permline perms =
    if is_nil permname || is_nil permline || leb buffer_len (length permline)
    then some (perms, refused)
    else add_line (perm_find_create permname perms) permline
