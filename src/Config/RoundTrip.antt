-- ===== src/Config/RoundTrip.antt =====
-- `config_load_from_data` reads back what `config_to_data` writes.
use wzdftpd.Base.{
  ℕ, Bool, true, false, List, [], ◌∷◌, ◌++◌, append-nil, append_assoc, Option, none, some, Bytes,
  ◌≡◌, ◌≢◌, refl, sym, ap, ◌∙◌, arith, ◌==◌, All,
}
use mathlib.Core.Path.{subst}
use wzdftpd.Config.{cf_ok, KeyValue, Group, Config, config_init, group_init, is_some}
use wzdftpd.Config.Feed.{Without, at_group, feed_line, feed_first, end_comment}
use wzdftpd.Config.Lines.{header_line, empty_group, end_pair, end_header, header-IsLine}
use wzdftpd.Config.Parse.{
  last_line, parse_from, then_do, config_load_from_data, config_parse_data,
  config_parse_flush_buffer,
}
use wzdftpd.Config.Print.{config_to_data, print_values, print_group, print_groups, print_line}
use wzdftpd.Config.Printable.{EntryOf, IsEntry, IsNamedGroup, Opens, IsPrintable}
use wzdftpd.Config.Scan.{pair-IsLine, pair_line}
use wzdftpd.Config.Unique.{UniqueKeys, UniqueKeys-before}

-- The group with more entries at its end.
abbrev extend : Group → List KeyValue → Group
extend group kvs = record group { values = group.values ++ kvs }

feed_entry :
    (key : Option Bytes) (value rest : Bytes) (later : List KeyValue) (done : List Group)
    (group : Group) (merge : Bool)
    → EntryOf (is_some group.name) key value
    → UniqueKeys (group.values ++ record { key = key; value = value } ∷ later)
    → parse_from true (print_line key value ++ (b'\n' ∷ rest)) (at_group done group merge [])
      ≡ parse_from true rest
          (at_group done (extend group (record { key = key; value = value } ∷ [])) merge [])
feed_entry none value rest later done group merge e u =
    feed_line value rest (at_group done group merge []) e.line
    ∙ ap (λ r. then_do r (parse_from true rest)) (end_comment done group merge value e.mark)
feed_entry (some []) value rest later done group merge e u = absurd e
feed_entry (some (c ∷ cs)) value rest later done group merge (n, key, v) u =
    ap (λ t. parse_from true t (at_group done group merge [])) (simp append_assoc)
    ∙ feed_line (pair_line c cs value) rest (at_group done group merge [])
        (pair-IsLine c cs value key v)
    ∙ ap (λ r. then_do r (parse_from true rest))
        (end_pair c cs value key v done group merge n
          (UniqueKeys-before group.values _ later (c ∷ cs) u refl))

feed_values :
    (kvs : List KeyValue) (rest : Bytes) (done : List Group) (group : Group) (merge : Bool)
    → All (IsEntry (is_some group.name)) kvs
    → UniqueKeys (group.values ++ kvs)
    → parse_from true (print_values kvs ++ rest) (at_group done group merge [])
      ≡ parse_from true rest (at_group done (extend group kvs) merge [])
unfolding print_values
feed_values [] rest done group merge e u = rw append-nil
feed_values (kv ∷ kvs) rest done group merge (e, es) u =
    let group' = extend group (kv ∷ []) in
    ap (λ t. parse_from true t (at_group done group merge []))
      (append_assoc (print_line kv.key kv.value) (b'\n' ∷ print_values kvs) rest)
    ∙ feed_entry kv.key kv.value (print_values kvs ++ rest) kvs done group merge e u
    ∙ feed_values kvs rest done group' merge es
        (subst UniqueKeys (sym (append_assoc group.values (kv ∷ []) kvs)) u)
    ∙ ap (λ vs. parse_from true rest (at_group done (record group { values = vs }) merge []))
        (append_assoc group.values (kv ∷ []) kvs)

-- The state behind all groups.
at_end : List Group → Group → List Group → Bool → Config
at_end done group [] merge = at_group done group merge []
at_end done group (g ∷ gs) merge = at_end (done ++ group ∷ []) g gs merge

at_end-groups :
    (done : List Group) (group : Group) (gs : List Group) (merge : Bool)
    → (at_end done group gs merge).groups ≡ done ++ group ∷ gs
unfolding at_end
at_end-groups done group [] merge = refl
at_end-groups done group (g ∷ gs) merge =
    at_end-groups (done ++ group ∷ []) g gs merge ∙ append_assoc done (group ∷ []) (g ∷ gs)

at_end-buffer :
    (done : List Group) (group : Group) (gs : List Group) (merge : Bool)
    → (at_end done group gs merge).parse_buffer ≡ some []
unfolding at_end
at_end-buffer done group [] merge = refl
at_end-buffer done group (g ∷ gs) merge = at_end-buffer (done ++ group ∷ []) g gs merge

feed_header :
    (name rest : Bytes) (done : List Group) (group : Group) (merge : Bool)
    → Without b'\n' name
    → parse_from true (header_line name ++ (b'\n' ∷ rest)) (at_group done group merge [])
      ≡ parse_from true rest (at_group (done ++ group ∷ []) (empty_group name) merge [])
feed_header name rest done group merge h =
    feed_line (header_line name) rest (at_group done group merge []) (header-IsLine name h)
    ∙ ap (λ r. then_do r (parse_from true rest)) (end_header done group merge name)

-- A printed group in front of `rest`, as its header line and its entries.
print_group-append :
    (g : Group) (rest name : Bytes)
    → g.name ≡ some name
    → g.comment ≡ none
    → print_group g ++ rest ≡ header_line name ++ (b'\n' ∷ (print_values g.values ++ rest))
unfolding print_group
print_group-append g rest name n c = rw (n, c) (simp append_assoc)

named_group :
    (g : Group) (name : Bytes)
    → g.name ≡ some name
    → g.comment ≡ none
    → extend (empty_group name) g.values ≡ g
named_group g name n c = λ i. record { name = sym n i; comment = sym c i; values = g.values }

feed_groups :
    (gs : List Group) (done : List Group) (group : Group) (merge : Bool)
    → All IsNamedGroup gs
    → parse_from true (print_groups gs) (at_group done group merge [])
      ≡ (at_end done group gs merge, cf_ok)
unfolding print_groups parse_from at_end
feed_groups [] done group merge h = refl
feed_groups (g ∷ gs) done group merge (h, hs) =
    ap (λ t. parse_from true t (at_group done group merge []))
      (print_group-append g (print_groups gs) h.name h.is_named h.no_comment)
    ∙ feed_header h.name (print_values g.values ++ print_groups gs) done group merge h.one_line
    ∙ feed_values g.values (print_groups gs) (done ++ group ∷ []) (empty_group h.name) merge
        h.entries h.keys
    ∙ ap (λ x. parse_from true (print_groups gs) (at_group (done ++ group ∷ []) x merge []))
        (named_group g h.name h.is_named h.no_comment)
    ∙ feed_groups gs (done ++ group ∷ []) g merge hs

opening_line :
    (key : Option Bytes) (value tail : Bytes)
    → EntryOf false key value
    → value ≢ []
    → (c : ℕ) × (cs : Bytes) × (print_line key value ++ tail ≡ c ∷ cs) × ((c == b'\n') ≡ false)
opening_line none [] tail e o = absurd (o refl)
opening_line none (c ∷ cs) tail e o = (c, cs ++ tail, refl, e.line.whole.0)
opening_line (some []) value tail e o = absurd e
opening_line (some (c ∷ cs)) value tail e o = cc e.0

-- The text of a printable file starts with a byte that is no newline.
opening :
    (top : List KeyValue) (rest : List Group)
    → All (IsEntry false) top
    → Opens top rest
    → All IsNamedGroup rest
    → (c : ℕ) × (cs : Bytes) × (print_values top ++ print_groups rest ≡ c ∷ cs)
      × ((c == b'\n') ≡ false)
unfolding print_values print_groups
opening [] [] e o h = absurd o
opening [] (g ∷ gs) e o (h, hs) =
    (b'[', _, print_group-append g (print_groups gs) h.name h.is_named h.no_comment, refl)
opening (kv ∷ kvs) rest e o h =
    let (c, cs, t, n) =
      opening_line kv.key kv.value ((b'\n' ∷ print_values kvs) ++ print_groups rest) e.0 o in
    (
      c,
      cs,
      append_assoc (print_line kv.key kv.value) (b'\n' ∷ print_values kvs) (print_groups rest) ∙ t,
      n,
    )

print_file :
    (file : Config) (p : IsPrintable file)
    → config_to_data file ≡ print_values p.top ++ print_groups p.rest
unfolding config_to_data print_groups print_group
print_file file p = rw p.groups

flush_empty :
    (config : Config)
    → config.parse_buffer ≡ some []
    → (config_parse_flush_buffer config).0 ≡ config
unfolding config_parse_flush_buffer
flush_empty config h = ground arith

-- The configuration that the loader ends in, for the groups of a printable file.
load_end :
    (top : List KeyValue) (rest : List Group) (merge : Bool) (c : ℕ) (cs : Bytes)
    → All (IsEntry false) top
    → UniqueKeys top
    → All IsNamedGroup rest
    → print_values top ++ print_groups rest ≡ c ∷ cs
    → (c == b'\n') ≡ false
    → config_load_from_data config_init (c ∷ cs) merge
      ≡ (at_end [] (extend group_init top) rest merge, cf_ok)
unfolding config_load_from_data config_parse_data config_init group_init
load_end top rest merge c cs e u h t n =
    ap (λ r. then_do r last_line)
      (feed_first c cs (record config_init { merge_multiple = merge }) n refl
        ∙ ap (λ t. parse_from true t (at_group [] group_init merge [])) (sym t)
        ∙ feed_values top (print_groups rest) [] group_init merge e u
        ∙ feed_groups rest [] (extend group_init top) merge h)
    ∙ ap (λ x. (x, cf_ok)) (flush_empty _ (at_end-buffer [] (extend group_init top) rest merge))

-- A printable configuration, written by `config_to_data` and read by `config_load_from_data`,
-- comes back with the same groups, keys, values and comments in the same order.
pub config_load_from_data-to_data :
    (file : Config) (merge : Bool)
    → IsPrintable file
    → let r = config_load_from_data config_init (config_to_data file) merge in
      (r.1 ≡ cf_ok) × (r.0.groups ≡ file.groups)
config_load_from_data-to_data file merge p =
    let (c, cs, t, n) = opening p.top p.rest p.comments p.opens p.sections in
    let e = load_end p.top p.rest merge c cs p.comments p.keys p.sections t n in
    rw (print_file file p ∙ t) (
      rw e (
        refl,
        (unfold group_init in
            (at_end-groups [] (extend group_init p.top) p.rest merge ∙ sym p.groups)),
      ))
