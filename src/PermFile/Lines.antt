-- ===== src/PermFile/Lines.antt =====
-- What readPermFile makes of each line that writePermFile writes.
use wzdftpd.Base.{
  ℕ, ◌≤◌, true, false, List, [], ◌∷◌, ◌++◌, some, Bytes, ◌≡◌, refl, sym, ap, ◌∙◌, codes, has_char,
  str_eq, strtok, blanks, arith,
}
use wzdftpd.Perm.Add.{c_string}
use wzdftpd.PermFile.{Acl, File, change_file}
use wzdftpd.PermFile.Text.{
  tab, newline, quoted, read_line, apply_line, ensure_file, print_owner, print_acl, print_link,
  set_owner, set_link, with_acl, or_empty, show_octal, permissions_of, u64_max,
}
use wzdftpd.PermFile.Words.{every, word_char, is_word, strtok-word, has_char-tab}
use wzdftpd.PermFile.Octal.{word-show_octal, strtoul_8-show_octal}
use wzdftpd.PermFile.Names.{is_name, read_token-name, read_token-after_name, strtok-after_name}

spaceless : (s : Bytes) → every word_char s ≡ true → has_char b' ' s ≡ false
unfolding every has_char
spaceless [] h = refl
spaceless (c ∷ s) h = ground (arith, spaceless s)

pub word-every : (s : Bytes) → is_word s ≡ true → every word_char s ≡ true
word-every [] h = cc
word-every (c ∷ s) h = h

has_char-word : (s : Bytes) → is_word s ≡ true → has_char b' ' s ≡ false
has_char-word [] h = cc
has_char-word (c ∷ s) h = spaceless (c ∷ s) h

pub quoted-word : (s : Bytes) → is_word s ≡ true → quoted s ≡ s
quoted-word s h = rw (has_char-word s h) refl

pub name-word : (s : Bytes) → is_word s ≡ true → is_name s ≡ true
name-word s h = rw (has_char-word s h) h

-- Four tokens, of which the second and the third may be quoted.
read_line-four :
    (umask : ℕ) (t1 t2 t3 t4 rest : Bytes) (d : ℕ) (l : List File)
    → is_word t1 ≡ true
    → is_name t2 ≡ true
    → is_name t3 ≡ true
    → is_word t4 ≡ true
    → has_char d blanks ≡ true
    → read_line umask (t1 ++ (tab ∷ quoted t2 ++ (tab ∷ quoted t3 ++ (tab ∷ t4 ++ d ∷ rest)))) l
      ≡ some (apply_line umask t1 t2 t3 t4 rest (ensure_file umask t2 l))
unfolding read_line
read_line-four umask t1 t2 t3 t4 rest d l h1 h2 h3 h4 h =
    let r3 = t4 ++ d ∷ rest in
    let r2 = quoted t3 ++ tab ∷ r3 in
    let r1 = quoted t2 ++ tab ∷ r2 in
    rw
      (
        strtok-word t1 r1 tab h1 has_char-tab,
        read_token-name t2 r2 h2,
        read_token-after_name t2 r2,
        read_token-name t3 r3 h3,
        strtok-after_name t3 r3,
        strtok-word t4 rest d h4 h,
      )
      refl

word_codes :
    (is_word (codes "owner") ≡ true)
    × (is_word (codes "perm") ≡ true)
    × (is_word (codes "link") ≡ true)
unfolding every
word_codes = (refl, refl, refl)

has_char-newline : has_char newline blanks ≡ true
unfolding has_char
has_char-newline = refl

strtok-octal : (n : ℕ) → (strtok blanks (show_octal n ++ newline ∷ [])).0 ≡ some (show_octal n)
strtok-octal n =
    rw (strtok-word (show_octal n) [] newline (word-show_octal n) has_char-newline) refl

pub permissions_of-octal :
    (umask n old : ℕ) → n ≤ u64_max → permissions_of umask (some (show_octal n)) old ≡ n
permissions_of-octal umask n old h = rw (permissions_of, strtoul_8-show_octal n h) refl

pub read_line-owner :
    (umask : ℕ) (f : File) (l : List File)
    → is_name f.filename ≡ true
    → is_word f.owner ≡ true
    → is_word f.group ≡ true
    → f.permissions ≤ u64_max
    → read_line umask (print_owner f) l
      ≡ some (
          change_file f.filename
            (set_owner umask f.owner f.group (some (show_octal f.permissions)))
            (ensure_file umask f.filename l))
unfolding print_owner str_eq
read_line-owner umask f l hn ho hg hp =
    let rest = show_octal f.permissions ++ newline ∷ [] in
    ap
      (λ o.
        read_line umask
          (codes "owner" ++ (tab ∷ quoted f.filename ++ (tab ∷ o ++ (tab ∷ f.group ++ tab ∷ rest))))
          l)
      (sym (quoted-word f.owner ho))
    ∙ read_line-four umask (codes "owner") f.filename f.owner f.group rest tab l word_codes.0 hn
        (name-word f.owner ho) hg has_char-tab
    ∙ rw (strtok-octal f.permissions) refl

pub c_string-word :
    (p rest : Bytes) → every word_char p ≡ true → c_string (p ++ newline ∷ []) ≡ p ++ newline ∷ []
unfolding c_string every
c_string-word [] rest h = refl
c_string-word (c ∷ p) rest h = ground (arith, c_string-word p rest)

pub read_line-perm :
    (umask : ℕ) (name : Bytes) (a : Acl) (l : List File)
    → is_name name ≡ true
    → is_word a.user ≡ true
    → is_word a.perms ≡ true
    → read_line umask (print_acl name a) l
      ≡ some (change_file name (with_acl a.user a.perms) (ensure_file umask name l))
unfolding print_acl str_eq
read_line-perm umask name a l hn hu hp =
    ap (λ p. read_line umask (codes "perm" ++ (tab ∷ quoted name ++ (tab ∷ a.user ++ tab ∷ p))) l)
      (c_string-word a.perms [] (word-every a.perms hp))
    ∙ ap
        (λ u.
          read_line umask
            (codes "perm" ++ (tab ∷ quoted name ++ (tab ∷ u ++ (tab ∷ a.perms ++ newline ∷ [])))) l)
        (sym (quoted-word a.user hu))
    ∙ read_line-four umask (codes "perm") name a.user a.perms [] newline l word_codes.1 hn
        (name-word a.user hu) hp has_char-newline

pub read_line-link :
    (umask : ℕ) (f : File) (target : Bytes) (l : List File)
    → f.target ≡ some target
    → is_word f.filename ≡ true
    → is_name target ≡ true
    → is_word f.owner ≡ true
    → is_word f.group ≡ true
    → read_line umask (print_link f) l
      ≡ some (
          change_file f.filename
            (set_link umask target f.owner f.group (some (show_octal f.permissions)))
            (ensure_file umask f.filename l))
unfolding print_link str_eq
read_line-link umask f target l e hn ht ho hg =
    let rest = f.group ++ (tab ∷ show_octal f.permissions ++ newline ∷ []) in
    ap
      (λ t.
        read_line umask
          (codes "link"
            ++ (tab ∷ f.filename ++ (tab ∷ quoted (or_empty t) ++ (tab ∷ f.owner ++ tab ∷ rest))))
          l)
      e
    ∙ ap
        (λ n.
          read_line umask
            (codes "link" ++ (tab ∷ n ++ (tab ∷ quoted target ++ (tab ∷ f.owner ++ tab ∷ rest)))) l)
        (sym (quoted-word f.filename hn))
    ∙ read_line-four umask (codes "link") f.filename target f.owner rest tab l word_codes.2
        (name-word f.filename hn) ht ho has_char-tab
    ∙ rw
        (
          strtok-word f.group (show_octal f.permissions ++ newline ∷ []) tab hg has_char-tab,
          strtok-octal f.permissions,
        )
        refl
