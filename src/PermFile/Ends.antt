-- ===== src/PermFile/Ends.antt =====
-- What writePermFile writes of an entry ends with its only newline.
use wzdftpd.Base.{
  ℕ, true, [], ◌∷◌, ◌++◌, some, Bytes, ◌≡◌, refl, codes, has_char, inl, inr, Bool-cases, arith,
}
use wzdftpd.PermFile.{Acl, File}
use wzdftpd.PermFile.Text.{tab, newline, quoted, print_owner, print_acl, print_link, show_octal}
use wzdftpd.PermFile.Words.{every, every-append, every-weaken, word_char, is_word}
use wzdftpd.PermFile.Octal.{word-show_octal}
use wzdftpd.PermFile.Lines.{word-every, c_string-word}
use wzdftpd.PermFile.Names.{
  is_name, quoted_char, name-quoted, is_line, is_line-append, no_newline, unquoted-word,
}

quoted_newline : (c : ℕ) → quoted_char c ≡ true → no_newline c ≡ true
quoted_newline c h = ground arith

word_newline : (c : ℕ) → word_char c ≡ true → no_newline c ≡ true
word_newline c h = ground arith

every-word_newline : (s : Bytes) → is_word s ≡ true → every no_newline s ≡ true
every-word_newline s h = every-weaken word_char no_newline s word_newline (word-every s h)

every-quoted_newline : (s : Bytes) → is_name s ≡ true → every no_newline (quoted s) ≡ true
unfolding every
every-quoted_newline s h = elim (Bool-cases (has_char b' ' s)) [
  | inl e ↦ rw e (
      every-append no_newline s (b'\'' ∷ [])
        (every-weaken quoted_char no_newline s quoted_newline (name-quoted s e h)) refl)
  | inr e ↦
      rw e (every-weaken word_char no_newline s word_newline (word-every s (unquoted-word s e h)))
]

is_line-newline : is_line (newline ∷ []) ≡ true
unfolding is_line
is_line-newline = refl

-- A field after a tab, with the rest of the line.
is_line-field :
    (s rest : Bytes)
    → every no_newline s ≡ true
    → is_line rest ≡ true
    → is_line (tab ∷ s ++ rest) ≡ true
unfolding every
is_line-field s rest hs hr = is_line-append (tab ∷ s) rest hs hr

is_line-owned :
    (f : File)
    → is_word f.owner ≡ true
    → is_word f.group ≡ true
    → is_line (tab ∷ f.owner ++ (tab ∷ f.group ++ (tab ∷ show_octal f.permissions ++ newline ∷ [])))
      ≡ true
is_line-owned f ho hg = is_line-field f.owner _ (every-word_newline f.owner ho) (
    is_line-field f.group _ (every-word_newline f.group hg) (
      is_line-field (show_octal f.permissions) _
        (every-word_newline (show_octal f.permissions) (word-show_octal f.permissions))
        is_line-newline))

pub is_line-perm :
    (name : Bytes) (a : Acl)
    → is_name name ≡ true
    → is_word a.user ≡ true
    → is_word a.perms ≡ true
    → is_line (print_acl name a) ≡ true
unfolding print_acl every
is_line-perm name a hn hu hp = rw (c_string-word a.perms [] (word-every a.perms hp)) (
    is_line-append (codes "perm") _ refl (
      is_line-field (quoted name) _ (every-quoted_newline name hn) (
        is_line-field a.user _ (every-word_newline a.user hu)
          (is_line-field a.perms _ (every-word_newline a.perms hp) is_line-newline))))

pub is_line-owner :
    (f : File)
    → is_name f.filename ≡ true
    → is_word f.owner ≡ true
    → is_word f.group ≡ true
    → is_line (print_owner f) ≡ true
unfolding print_owner every
is_line-owner f hn ho hg = is_line-append (codes "owner") _ refl (
    is_line-field (quoted f.filename) _ (every-quoted_newline f.filename hn)
      (is_line-owned f ho hg))

pub is_line-link :
    (f : File) (target : Bytes)
    → f.target ≡ some target
    → is_word f.filename ≡ true
    → is_name target ≡ true
    → is_word f.owner ≡ true
    → is_word f.group ≡ true
    → is_line (print_link f) ≡ true
unfolding print_link every
is_line-link f target e hn ht ho hg = rw e (
    is_line-append (codes "link") _ refl (
      is_line-field f.filename _ (every-word_newline f.filename hn)
        (is_line-field (quoted target) _ (every-quoted_newline target ht) (is_line-owned f ho hg))))
