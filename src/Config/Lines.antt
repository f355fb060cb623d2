-- ===== src/Config/Lines.antt =====
-- The parser on the key and value lines, and the group lines, that `config_to_data` writes.
use wzdftpd.Base.{
  ℕ, suc, ◌+◌, ◌-◌, take_all, Bool, true, false, List, [], ◌∷◌, ◌++◌, none, some, Bytes, ◌≡◌, refl,
  ap, ◌∙◌, arith, length, length-append, get_elem?-append_here, take, set-append_here,
  take-length-append, skip_spaces, index_of, last_index_of, trim_end, ends_with, ltb,
}
use wzdftpd.Config.{cf_ok, Group, Config, group_init, lookup_keyvalue, is_some}
use wzdftpd.Config.Comment.{config_line_is_comment}
use wzdftpd.Config.Edit.{pair, add_key_in, config_add_key, config_add_group}
use wzdftpd.Config.Feed.{Without, IsLine, at_group}
use wzdftpd.Config.Parse.{
  parse_pair, end_line, config_parse_line, config_parse_keyvalue, config_parse_group,
  config_line_is_group, config_line_is_keyvalue, empty_buffer, group_name, value_start, value_text,
}
use wzdftpd.Config.Scan.{
  IsKey, IsValue, before, pair_line, has_char-append, last_index_of-append, pair_index, pair_key,
  pair_start, pair_value, Without-append, ends_with-append,
}

add_key_at_group :
    (done : List Group) (group : Group) (merge : Bool) (s key value : Bytes)
    → lookup_keyvalue group.values key ≡ none
    → config_add_key (at_group done group merge s) (some (length done)) key value ≡ (
      at_group done (record group { values = group.values ++ pair key value ∷ [] }) merge s,
      cf_ok,
    )
unfolding config_add_key add_key_in
add_key_at_group done group merge s key value h =
    rw (get_elem?-append_here done [] group, config_add_key, h, add_key_in)
      (ap (λ gs. (record (at_group done group merge s) { groups = gs }, cf_ok))
        (set-append_here done [] group _))

line_keyvalue :
    (config : Config) (line : Bytes)
    → skip_spaces line ≡ line
    → config_line_is_comment line ≡ false
    → config_line_is_group line ≡ false
    → config_line_is_keyvalue line ≡ true
    → config_parse_line config line ≡ config_parse_keyvalue config line (length line)
unfolding config_parse_line
line_keyvalue config line s c g k = rw (s, c, g, k)

keyvalue_step :
    (done : List Group) (group : Group) (merge : Bool) (s line : Bytes) (len p start c : ℕ)
    (cs v : Bytes)
    → is_some group.name ≡ true
    → index_of b'=' line ≡ some p
    → trim_end (take p line) ≡ c ∷ cs
    → value_start line p ≡ start
    → value_text line len start ≡ v
    → ltb len (length (c ∷ cs) + 1) ≡ false
    → config_parse_keyvalue (at_group done group merge s) line len
      ≡ config_add_key (at_group done group merge s) (some (length done)) (c ∷ cs) v
unfolding config_parse_keyvalue parse_pair
keyvalue_step done group merge s line len p start c cs v n i k b t l =
    rw (get_elem?-append_here done [] group, config_parse_keyvalue, n, i, k, parse_pair, l, b, t)

module _ (c : ℕ) (cs v : Bytes) (key : IsKey c cs) (value : IsValue v) where
  pair_longer : ltb (length (pair_line c cs v)) (length (c ∷ cs) + 1) ≡ false
  pair_longer =
      ground (arith, length-append cs (32 ∷ []), length-append (cs ++ 32 ∷ []) (b'=' ∷ 32 ∷ v))

  keyvalue_at_group :
      (done : List Group) (group : Group) (merge : Bool) (s : Bytes)
      → is_some group.name ≡ true
      → lookup_keyvalue group.values (c ∷ cs) ≡ none
      → config_parse_keyvalue
          (at_group done group merge s)
          (pair_line c cs v)
          (length (pair_line c cs v))
        ≡ (
          at_group done (record group { values = group.values ++ pair (c ∷ cs) v ∷ [] }) merge s,
          cf_ok,
        )
  keyvalue_at_group done group merge s n h =
      keyvalue_step done group merge s (pair_line c cs v) _ (length (before c cs)) _ c cs v n
        (pair_index c cs v key value) (pair_key c cs v key value) (pair_start c cs v key value)
        (pair_value c cs v key value) (pair_longer)
      ∙ add_key_at_group done group merge s (c ∷ cs) v h

  pair_kind :
      (skip_spaces (pair_line c cs v) ≡ pair_line c cs v)
      × (config_line_is_comment (pair_line c cs v) ≡ false)
      × (config_line_is_group (pair_line c cs v) ≡ false)
      × (config_line_is_keyvalue (pair_line c cs v) ≡ true)
  unfolding skip_spaces config_line_is_comment config_line_is_group config_line_is_keyvalue
  pair_kind = (
    rw key.front,
    ground (arith, key.no_hash, key.one_line.0),
    rw key.no_bracket,
    rw key.no_equals.0 (has_char-append b'=' (cs ++ 32 ∷ []) (32 ∷ v)),
  )

  pub end_pair :
      (done : List Group) (group : Group) (merge : Bool)
      → is_some group.name ≡ true
      → lookup_keyvalue group.values (c ∷ cs) ≡ none
      → end_line (at_group done group merge (pair_line c cs v)) ≡ (
        at_group done (record group { values = group.values ++ pair (c ∷ cs) v ∷ [] }) merge [],
        cf_ok,
      )
  unfolding end_line
  end_pair done group merge n h = ap empty_buffer (
      line_keyvalue (at_group done group merge (pair_line c cs v)) (pair_line c cs v) pair_kind.0
        pair_kind.1 pair_kind.2 pair_kind.3
      ∙ keyvalue_at_group done group merge _ n h)

-- The header of a group, and the group that it starts.
abbrev pub header_line : Bytes → Bytes
header_line name = b'[' ∷ (name ++ b']' ∷ [])

abbrev pub empty_group : Bytes → Group
empty_group name = record { name = some name; comment = none; values = [] }

header_name : (name : Bytes) → group_name (header_line name) (suc (length name)) ≡ name
header_name name = ground (arith, take-length-append name (b']' ∷ []), sub_one (length name))
  where
    sub_one : (n : ℕ) → suc n - 1 ≡ n
    sub_one n = omega arith

header_index :
    (name : Bytes)
    → last_index_of b']' (take (length (header_line name)) (header_line name))
      ≡ some (suc (length name))
header_index name =
    ap (last_index_of b']') (take_all (length (header_line name)) (header_line name) (omega arith))
    ∙ last_index_of-append b']' (b'[' ∷ name)

add_group_at_group :
    (done : List Group) (group : Group) (merge : Bool) (s name : Bytes)
    → config_add_group (at_group done group merge s) name
      ≡ at_group (done ++ group ∷ []) (empty_group name) merge s
unfolding config_add_group group_init
add_group_at_group done group merge s name = refl

header_at_group :
    (done : List Group) (group : Group) (merge : Bool) (s name : Bytes)
    → config_parse_line (at_group done group merge s) (header_line name)
      ≡ (at_group (done ++ group ∷ []) (empty_group name) merge s, cf_ok)
unfolding config_parse_line config_line_is_comment config_line_is_group skip_spaces
    config_parse_group
header_at_group done group merge s name = rw (
  has_char-append b']' name [],
  header_index name,
  config_parse_group,
  header_name name,
  add_group_at_group,
)

pub end_header :
    (done : List Group) (group : Group) (merge : Bool) (name : Bytes)
    → end_line (at_group done group merge (header_line name))
      ≡ (at_group (done ++ group ∷ []) (empty_group name) merge [], cf_ok)
unfolding end_line
end_header done group merge name = ap empty_buffer (header_at_group done group merge _ name)

pub header-IsLine : (name : Bytes) → Without b'\n' name → IsLine (header_line name)
unfolding ends_with
header-IsLine name h = record {
  whole = (refl, Without-append b'\n' name _ h (refl, tt));
  no_return = ends_with-append b'\r' b']' (b'[' ∷ name) [];
  no_join = ends_with-append b'\\' b']' (b'[' ∷ name) [];
}
