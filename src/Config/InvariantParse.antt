-- ===== src/Config/InvariantParse.antt =====
-- The parser keeps a file valid, whatever bytes it reads and whatever error it ends in.
use wzdftpd.Base.{
  ℕ, ◌+◌, Bool, true, false, List, [], ◌∷◌, Option, none, some, Bytes, ◌≡◌, refl, ◌==◌, ltb,
  get_elem?, index_of, last_index_of, skip_spaces, trim_end, ends_with, take, length,
}
use wzdftpd.Config.{Code, cf_ok, Config, is_some}
use wzdftpd.Config.Comment.{config_line_is_comment}
use wzdftpd.Config.Invariant.{
  IsValid, HasUniqueKeys, All-get_elem?, put_values-IsValid, if-IsValid, config_add_key-IsValid,
  config_add_group-IsValid,
}
use wzdftpd.Config.Parse.{
  config_line_is_group, config_line_is_keyvalue, config_parse_comment, config_parse_group,
  parse_pair, config_parse_keyvalue, config_parse_line, put_buffer, config_parse_flush_buffer,
  flush_text, end_text, newline_text, end_line, parse_newline, parse_byte, then_do, parse_from,
  config_parse_data, config_load_from_data, strip_return, parse_chunks, config_load_from_fd,
}
use wzdftpd.Config.Unique.{UniqueKeys-remark}

-- Both cases of a match on an option.
option-IsValid :
    {A : Type 0} (o : Option A) (r : Config × Code) (f : A → Config × Code)
    → IsValid r.0
    → ((a : A) → o ≡ some a → IsValid (f a).0)
    → IsValid (elim o as (λ _. Config × Code) [ none ↦ r | some a ↦ f a ]).0
option-IsValid none r f h k = h
option-IsValid (some a) r f h k = k a refl

comment-IsValid :
    (file : Config) (line : Bytes) → IsValid file → IsValid (config_parse_comment file line).0
unfolding config_parse_comment
comment-IsValid file line v = option-IsValid file.current_group _ _ v (λ i _.
    option-IsValid (get_elem? file.groups i) _ _ v (λ group e.
      put_values-IsValid file i group _ v e (
        UniqueKeys-remark group.values line
          (All-get_elem? HasUniqueKeys file.groups i group v.keys e))))

group-IsValid :
    (file : Config) (line : Bytes) (len : ℕ)
    → IsValid file
    → IsValid (config_parse_group file line len).0
unfolding config_parse_group
group-IsValid file line len v =
    option-IsValid (last_index_of b']' (take len line)) _ _ v
      (λ e _. config_add_group-IsValid file _ v)

pair-IsValid :
    (file : Config) (i : ℕ) (line : Bytes) (len p : ℕ) (key : Bytes)
    → IsValid file
    → IsValid (parse_pair file i line len p key).0
unfolding parse_pair
pair-IsValid file i line len p [] v = v
pair-IsValid file i line len p (c ∷ key) v =
    if-IsValid (ltb len (length (c ∷ key) + 1)) _ _ v (config_add_key-IsValid file (some i) _ _ v)

keyvalue-IsValid :
    (file : Config) (line : Bytes) (len : ℕ)
    → IsValid file
    → IsValid (config_parse_keyvalue file line len).0
unfolding config_parse_keyvalue
keyvalue-IsValid file line len v = option-IsValid file.current_group _ _ v (λ i _.
    option-IsValid (get_elem? file.groups i) _ _ v (λ group _.
      if-IsValid (is_some group.name) _ _
        (option-IsValid (index_of b'=' line) _ _ v
          (λ p _. pair-IsValid file i line len p (trim_end (take p line)) v))
        v))

line-IsValid :
    (file : Config) (line : Bytes) → IsValid file → IsValid (config_parse_line file line).0
unfolding config_parse_line
line-IsValid file line v =
    if-IsValid (config_line_is_comment (skip_spaces line)) _ _ (comment-IsValid file line v) (
      if-IsValid (config_line_is_group (skip_spaces line)) _ _ (group-IsValid file line _ v) (
        if-IsValid (config_line_is_keyvalue (skip_spaces line)) _ _ (keyvalue-IsValid file line _ v)
          v))

-- The buffer and the flag have no part in it.
buffer-IsValid : (file : Config) (s : Bytes) → IsValid file → IsValid (put_buffer file s)
buffer-IsValid file s v = record { keys = v.keys; current = v.current; top = v.top }

flush_text-IsValid :
    (file : Config) (o : Option Bytes) → IsValid file → IsValid (flush_text file o).0
unfolding flush_text
flush_text-IsValid file none v = v
flush_text-IsValid file (some []) v = v
flush_text-IsValid file (some (c ∷ line)) v = buffer-IsValid _ [] (line-IsValid file (c ∷ line) v)

flush-IsValid : (file : Config) → IsValid file → IsValid (config_parse_flush_buffer file).0
unfolding config_parse_flush_buffer
flush-IsValid file v = flush_text-IsValid file file.parse_buffer v

end_text-IsValid : (file : Config) (o : Option Bytes) → IsValid file → IsValid (end_text file o).0
unfolding end_text
end_text-IsValid file none v = flush-IsValid file v
end_text-IsValid file (some []) v = comment-IsValid file [] v
end_text-IsValid file (some (c ∷ line)) v = flush-IsValid file v

end_line-IsValid : (file : Config) → IsValid file → IsValid (end_line file).0
unfolding end_line
end_line-IsValid file v = end_text-IsValid file file.parse_buffer v

newline_text-IsValid :
    (file : Config) (o : Option Bytes) → IsValid file → IsValid (newline_text file o).0
unfolding newline_text
newline_text-IsValid file none v = v
newline_text-IsValid file (some s) v =
    if-IsValid (ends_with b'\\' (strip_return s)) _ _ (buffer-IsValid file _ v)
      (end_line-IsValid _ (buffer-IsValid file (strip_return s) v))

newline-IsValid :
    (later : Bool) (file : Config) → IsValid file → IsValid (parse_newline later file).0
unfolding parse_newline
newline-IsValid true file v = newline_text-IsValid file file.parse_buffer v
newline-IsValid false file v = end_line-IsValid file v

byte-IsValid :
    (later : Bool) (c : ℕ) (file : Config) → IsValid file → IsValid (parse_byte later c file).0
unfolding parse_byte
byte-IsValid later c file v =
    if-IsValid (c == b'\n') _ _ (newline-IsValid later file v) (buffer-IsValid file _ v)

then_do-IsValid :
    (r : Config × Code) (f : Config → Config × Code)
    → IsValid r.0
    → ((file : Config) → IsValid file → IsValid (f file).0)
    → IsValid (then_do r f).0
then_do-IsValid (file, cf_ok) f v h = h file v
then_do-IsValid (file, _) f v h = v

from-IsValid :
    (later : Bool) (data' : Bytes) (file : Config)
    → IsValid file
    → IsValid (parse_from later data' file).0
unfolding parse_from
from-IsValid later [] file v = v
from-IsValid later (c ∷ cs) file v =
    then_do-IsValid (parse_byte later c file) _ (byte-IsValid later c file v) (from-IsValid true cs)

pub config_load_from_data-IsValid :
    (file : Config) (data' : Bytes) (merge : Bool)
    → IsValid file
    → IsValid (config_load_from_data file data' merge).0
unfolding config_load_from_data config_parse_data
config_load_from_data-IsValid file [] merge v = v
config_load_from_data-IsValid file (c ∷ cs) merge v =
    then_do-IsValid (config_parse_data (c ∷ cs) (record file { merge_multiple = merge })) _
      (from-IsValid false (c ∷ cs) (record file { merge_multiple = merge })
        (record { keys = v.keys; current = v.current; top = v.top }))
      flush-IsValid

chunks-IsValid :
    (chunks : List Bytes) (file : Config) → IsValid file → IsValid (parse_chunks chunks file).0
unfolding parse_chunks config_parse_data
chunks-IsValid [] file v = v
chunks-IsValid (chunk ∷ chunks) file v =
    then_do-IsValid (config_parse_data chunk file) _ (from-IsValid false chunk file v)
      (chunks-IsValid chunks)

-- What the chunks before an error of `read` leave.
pub parse_chunks-IsValid :
    (file : Config) (chunks : List Bytes) (merge : Bool)
    → IsValid file
    → IsValid (parse_chunks chunks (record file { merge_multiple = merge })).0
parse_chunks-IsValid file chunks merge v =
    chunks-IsValid chunks (record file { merge_multiple = merge })
      (record { keys = v.keys; current = v.current; top = v.top })

pub config_load_from_fd-IsValid :
    (file : Config) (chunks : List Bytes) (merge : Bool)
    → IsValid file
    → IsValid (config_load_from_fd file chunks merge).0
unfolding config_load_from_fd
config_load_from_fd-IsValid file chunks merge v =
    then_do-IsValid (parse_chunks chunks (record file { merge_multiple = merge })) _
      (parse_chunks-IsValid file chunks merge v) flush-IsValid
