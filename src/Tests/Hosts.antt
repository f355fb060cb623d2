-- ===== src/Tests/Hosts.antt =====
-- Addresses as texts.
use wzdftpd.Base.{some, ◌≡◌, refl, codes, index_of, skip_spaces, none, ◌⊎◌, arith}
use wzdftpd.Ip.Host.{
  hostname, ipv4_address, ipv6_reference, host, ip_parse_host, parse_text, parse_netmask,
  string_is_ipv4, string_is_ipv6, string_is_hostname, host_tail, leading_digits, Host,
}
use wzdftpd.Ip.Accepted.{Decided, IsDotted, ip_parse_host-Decided, ip_parse_host-hostname}
use wzdftpd.Perm.Add.{c_string}

unfoldable runs : Unit {0}
unfolding ip_parse_host parse_text parse_netmask string_is_ipv4 string_is_ipv6 string_is_hostname
    host_tail leading_digits index_of skip_spaces
runs = tt

network : ip_parse_host (some (codes "10.0.0.0/8")) ≡ some (host ipv4_address 8 (codes "10.0.0.0"))
unfolding runs
network = refl

-- The text of a reference is not tested.
no_reference : ip_parse_host (some (codes "[xyz]")) ≡ some (host ipv6_reference 0 (codes "xyz"))
unfolding runs
no_reference = refl

no_address : ip_parse_host (some (codes "/24")) ≡ some (host ipv4_address 24 (codes ""))
unfolding runs
no_address = refl

no_slash : index_of b'/' (codes "a_b") ≡ none
unfolding runs
no_slash = refl

ip_parse_host-Decided_example : Decided (codes "a_b") (ip_parse_host (some (codes "a_b")))
ip_parse_host-Decided_example = ip_parse_host-Decided b'a' (codes "_b") no_slash refl

ip_parse_host-hostname_example :
    (ip : Host) × (ip_parse_host (some (codes "a-b.org")) ≡ some ip)
    × (ip.netmask ≡ 0)
    × (c_string ip.raw ≡ codes "a-b.org")
    × (((ip.host_type ≡ ipv4_address) × IsDotted (codes "a-b.org"))
        ⊎ ((ip.host_type ≡ hostname) × (¬ IsDotted (codes "a-b.org"))))
ip_parse_host-hostname_example =
    ip_parse_host-hostname (codes "a-b.org")
      (refl, (refl, (refl, (refl, (refl, (refl, (refl, tt))))))) (omega arith)
