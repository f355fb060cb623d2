-- ===== src/PermFile/RoundTrip.antt =====
-- Reading a permission file that writePermFile wrote.
use wzdftpd.Base.{
  ℕ, true, List, [], ◌∷◌, ◌++◌, some, map, ◌≡◌, refl, append_assoc, append-nil, length, arith, All,
}
use mathlib.Core.Path.{subst}
use wzdftpd.PermFile.{File}
use wzdftpd.PermFile.Text.{read_perm_file, print_files}
use wzdftpd.PermFile.Kept.{known, unknown, distinct_names, unknown-append}
use wzdftpd.PermFile.Entries.{IsPrintable, read_back, Reads-file}
use wzdftpd.PermFile.Reads.{Reads, Reads-nil}

Reads-files :
    (umask : ℕ) (k l : List File)
    → All (IsPrintable umask) k
    → distinct_names k ≡ true
    → unknown k l ≡ true
    → Reads umask (print_files k) l (l ++ map read_back k)
unfolding print_files distinct_names unknown
Reads-files umask [] l h hd hu = rw (append-nil l) (Reads-nil umask l)
Reads-files umask (f ∷ k) l h hd hu =
    Reads-file umask f l (l ++ map read_back (f ∷ k)) (print_files k) h.0 (ground arith) (
      subst (λ x. Reads umask (print_files k) (l ++ read_back f ∷ []) x)
        (append_assoc l (read_back f ∷ []) (map read_back k))
        (Reads-files umask k (l ++ read_back f ∷ []) h.1 (ground arith)
          (unknown-append k l (read_back f) (ground arith) (ground arith))))

unknown-nil : (k : List File) → unknown k [] ≡ true
unfolding unknown known
unknown-nil [] = refl
unknown-nil (f ∷ k) = unknown-nil k

-- For a list of printable entries with distinct names, readPermFile reads from what writePermFile writes
-- the same entries in the same order, each with its lines of rights reversed.
pub print_files-read_perm_file :
    (umask : ℕ) (l : List File)
    → All (IsPrintable umask) l
    → distinct_names l ≡ true
    → read_perm_file umask (print_files l) ≡ some (map read_back l)
unfolding read_perm_file Reads
print_files-read_perm_file umask l h hd =
    Reads-files umask l [] h hd (unknown-nil l) (length (print_files l)) (omega arith)
