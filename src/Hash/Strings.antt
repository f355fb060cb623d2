-- ===== src/Hash/Strings.antt =====
-- The tables of the program: hash_str and strcmp on keys that are C strings.
use wzdftpd.Base.{ap, str_eq, str_eq_iff, str_eq_refl, str_eq_symm}
use wzdftpd.Hash.{IsKeyed, hash_str}

pub strings-IsKeyed : IsKeyed hash_str str_eq
strings-IsKeyed = record {
  same_refl = str_eq_refl;
  same_symm = str_eq_symm;
  same_congr = λ a b c s. ap (λ x. str_eq x c) ((str_eq_iff a b).0 s);
  hash_congr = λ a b s. ap hash_str ((str_eq_iff a b).0 s);
}
