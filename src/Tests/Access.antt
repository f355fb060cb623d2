-- ===== src/Tests/Access.antt =====
-- Patterns, lists of addresses, and permissions, at concrete values.
use wzdftpd.Base.{
  [], ◌∷◌, ◌++◌, none, some, true, false, ◌&&◌, ◌≡◌, refl, arith, codes, Bytes, if◌then◌else◌, List,
  Option, leb, ltb, length, All, str_eq, ◌⊎◌,
}
use mathlib.Core.Option.{or_else}
use wzdftpd.Match.{
  my_str_compare, Glob, byte, any, star_none, end, my_str_compare-Glob, my_str_compare_complete,
  skip_to, complete,
}
use wzdftpd.Ip.{
  Entry, max_ip_length, is_empty, ip_compare, ip_add_check, ip_list_check, ip_list_check_ident,
  ip_remove, ip_inlist,
}
use wzdftpd.Ip.Check.{IsValid, ip_add_check-ip_list_check, ip_list_check-first, ip_remove-first}

unfoldable runs : Unit {0}
unfolding my_str_compare skip_to complete str_eq ip_compare ip_add_check ip_list_check
    ip_list_check_ident ip_remove ip_inlist
runs = tt

stops_at_first : my_str_compare (codes "10.0") (codes "1*0") ≡ false
unfolding runs
stops_at_first = refl

accepted : my_str_compare (codes "10.0.0.7") (codes "10.*") ≡ true
unfolding runs
accepted = refl

my_str_compare-Glob_example : Glob (codes "10.0.0.7") (codes "10.*")
my_str_compare-Glob_example = my_str_compare-Glob (codes "10.0.0.7") (codes "10.*") accepted

my_str_compare_complete_example : my_str_compare (codes "ab") (codes "?b*") ≡ true
my_str_compare_complete_example =
    my_str_compare_complete (codes "ab") (codes "?b*") (refl, (refl, tt))
      (any (byte (star_none end)))

-- A resolver that knows numeric addresses and one host.
abbrev resolve : Bytes → Option Bytes
resolve name = some name

abbrev host_of : Bytes → Option Bytes
host_of address = none

abbrev addresses : List Entry
addresses =
    record { regexp = codes "10.0.0.6"; is_allowed = false }
    ∷ record { regexp = codes "10.*"; is_allowed = true }
    ∷ []

addresses-IsValid : IsValid addresses
addresses-IsValid = ((omega arith, omega arith), ((omega arith, omega arith), tt))

ip_add_check-ip_list_check_example :
    let r = ip_add_check addresses (codes "127.*") true in
    (r.1 ≡ leb 1 (length (codes "127.*")) && ltb (length (codes "127.*")) max_ip_length)
    × IsValid r.0
    × (ip_list_check resolve host_of r.0 (codes "127.0.0.1")
        ≡ or_else (ip_list_check resolve host_of addresses (codes "127.0.0.1")) (
            if r.1 && ip_compare resolve host_of (codes "127.0.0.1") (codes "127.*")
            then some true
            else none))
ip_add_check-ip_list_check_example =
    ip_add_check-ip_list_check resolve host_of addresses (codes "127.*") true (codes "127.0.0.1")
      addresses-IsValid

decides_first : ip_list_check resolve host_of addresses (codes "10.0.0.6") ≡ some false
unfolding runs
decides_first = refl

ip_list_check-first_example :
    (before : List Entry) × (e : Entry) × (after : List Entry) × (addresses ≡ before ++ e ∷ after)
    × (e.is_allowed ≡ false)
    × (ip_compare resolve host_of (codes "10.0.0.6") e.regexp ≡ true)
    × All
        (λ x.
          (is_empty x.regexp ≡ false)
          × (ip_compare resolve host_of (codes "10.0.0.6") x.regexp ≡ false))
        before
ip_list_check-first_example =
    ip_list_check-first resolve host_of addresses (codes "10.0.0.6") false decides_first

ip_remove-first_example :
    ((ip_remove addresses (codes "10.*") ≡ (addresses, false))
      × All (λ e. str_eq e.regexp (codes "10.*") ≡ false) addresses)
    ⊎ ((before : List Entry) × (e : Entry) × (after : List Entry) × (addresses
          ≡ before ++ e ∷ after)
        × (ip_remove addresses (codes "10.*") ≡ (before ++ after, true))
        × (e.regexp ≡ codes "10.*")
        × All (λ e. str_eq e.regexp (codes "10.*") ≡ false) before)
ip_remove-first_example = ip_remove-first addresses (codes "10.*")
