-- ===== src/PermFile/Reads.antt =====
-- The loop of readPermFile, a line at a time, and the lines of a list of rights.
use wzdftpd.Base.{
  ℕ, zero, suc, ◌≤◌, Bool, true, false, ◌&&◌, List, [], ◌∷◌, ◌++◌, some, Bytes, ◌==◌, ◌≡◌, refl,
  sym, ap, ◌∙◌, append_assoc, length, length-append, arith,
}
use mathlib.Core.Path.{subst}
use mathlib.Core.List.{reverse_aux}
use wzdftpd.PermFile.{Acl, File, three, acl_line}
use wzdftpd.PermFile.Text.{read_line, read_lines, with_acl, print_acl, print_acls}
use wzdftpd.PermFile.Words.{is_word}
use wzdftpd.PermFile.Names.{is_name, is_line, gets-line}
use wzdftpd.PermFile.Lines.{read_line-perm}
use wzdftpd.PermFile.Ends.{is_line-perm}
use wzdftpd.PermFile.Kept.{
  known, has_line, no_lines, distinct_users, ensure_file-last, change_file-last, add_acl-new,
  no_lines-cons,
}

-- Reading the text `s` turns the list `l` into `l'`, with a round for each byte at most.
unfoldable pub Reads : ℕ → Bytes → List File → List File → Type 0
Reads umask s l l' = (fuel : ℕ) → length s ≤ fuel → read_lines umask fuel s l ≡ some l'

pub Reads-nil : (umask : ℕ) (l : List File) → Reads umask [] l l
unfolding Reads read_lines
Reads-nil umask l zero h = refl
Reads-nil umask l (suc fuel) h = refl

pub Reads-line :
    (umask : ℕ) (a s : Bytes) (l k l' : List File)
    → is_line a ≡ true
    → read_line umask a l ≡ some k
    → Reads umask s k l'
    → Reads umask (a ++ s) l l'
unfolding Reads read_lines is_line
Reads-line umask [] s l k l' h e r fuel le = cc
Reads-line umask (c ∷ a) s l k l' h e r zero le = absurd (omega arith)
Reads-line umask (c ∷ a) s l k l' h e r (suc fuel) le =
    let shorter : length s ≤ fuel = omega (arith, length-append a s) in
    rw (read_lines, gets-line (c ∷ a) s h, e, gets-line (c ∷ a) s h) (r fuel shorter)

-- A line of rights as it is kept: three bytes.
abbrev pub is_acl : Acl → Bool
is_acl a = is_word a.user && is_word a.perms && length a.perms == 3

unfoldable pub are_acls : List Acl → Bool
are_acls [] = true
are_acls (a ∷ l) = is_acl a && are_acls l

three-length : (p : Bytes) → length p ≡ 3 → three p ≡ p
three-length (a ∷ b ∷ c ∷ []) h = refl
three-length [] h = absurd (omega arith)
three-length (a ∷ []) h = absurd (omega arith)
three-length (a ∷ b ∷ []) h = absurd (omega arith)
three-length (a ∷ b ∷ c ∷ d ∷ p) h = absurd (omega arith)

pub acl-user : (a : Acl) → is_acl a ≡ true → is_word a.user ≡ true
acl-user a h = ground (arith, h)

pub acl-perms : (a : Acl) → is_acl a ≡ true → is_word a.perms ≡ true
acl-perms a h = ground (arith, h)

acl-three : (a : Acl) → is_acl a ≡ true → length a.perms ≡ 3
acl-three a h = ground (arith, h)

pub acl_line-same : (a : Acl) → is_acl a ≡ true → acl_line a.user a.perms ≡ a
acl_line-same a h =
    ap (λ (p : Bytes). record { user = a.user; perms = p }) (three-length a.perms (acl-three a h))

abbrev pub with_lines : List Acl → File → File
with_lines acl f = record f { acl = acl }

-- A line of rights, read to the last entry.
read_line-new_acl :
    (umask : ℕ) (f : File) (a : Acl) (l : List File)
    → is_name f.filename ≡ true
    → is_acl a ≡ true
    → known f.filename l ≡ false
    → has_line a.user f.acl ≡ false
    → read_line umask (print_acl f.filename a) (l ++ f ∷ [])
      ≡ some (l ++ with_lines (a ∷ f.acl) f ∷ [])
read_line-new_acl umask f a l hn ha hk hl =
    read_line-perm umask f.filename a (l ++ f ∷ []) hn (acl-user a ha) (acl-perms a ha)
    ∙ rw
        (
          ensure_file-last umask l f hk,
          change_file-last (with_acl a.user a.perms) l f hk,
          add_acl-new a.user a.perms f.acl hl,
          acl_line-same a ha,
        )
        refl

pub Reads-acls :
    (umask : ℕ) (f : File) (k acl : List Acl) (l l' : List File) (s : Bytes)
    → is_name f.filename ≡ true
    → known f.filename l ≡ false
    → are_acls k ≡ true
    → distinct_users k ≡ true
    → no_lines k acl ≡ true
    → Reads umask s (l ++ with_lines (reverse_aux k acl) f ∷ []) l'
    → Reads umask (print_acls f.filename k ++ s) (l ++ with_lines acl f ∷ []) l'
unfolding print_acls are_acls distinct_users no_lines
Reads-acls umask f [] acl l l' s hn hk ha hd hl r = r
Reads-acls umask f (a ∷ k) acl l l' s hn hk ha hd hl r =
    let ha1 : is_acl a ≡ true = ground arith in
    let hl1 : has_line a.user acl ≡ false = ground arith in
    subst (λ t. Reads umask t (l ++ with_lines acl f ∷ []) l')
      (sym (append_assoc (print_acl f.filename a) (print_acls f.filename k) s))
      (Reads-line umask (print_acl f.filename a) (print_acls f.filename k ++ s)
        (l ++ with_lines acl f ∷ []) (l ++ with_lines (a ∷ acl) f ∷ []) l'
        (is_line-perm f.filename a hn (acl-user a ha1) (acl-perms a ha1))
        (read_line-new_acl umask (with_lines acl f) a l hn ha1 hk hl1)
        (Reads-acls umask f k (a ∷ acl) l l' s hn hk (ground arith) (ground arith)
          (no_lines-cons k acl a (ground arith) (ground arith)) r))
