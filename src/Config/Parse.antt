-- ===== src/Config/Parse.antt =====
-- libwzd-core/wzd_configfile.c: the parser. The bytes of a file are taken to hold no NUL.
use wzdftpd.Base.{
  ℕ, ◌+◌, ◌-◌, Bool, true, false, ◌&&◌, List, [], ◌∷◌, ◌++◌, Option, none, some, Bytes, take, drop,
  length, get_elem?, ltb, ◌==◌, if◌then◌else◌, has_char, index_of, last_index_of, skip_spaces,
  trim_end, ends_with, drop_last,
}
use wzdftpd.Config.{
  Code, cf_ok, invalid_args, no_current_group, parse_error, out_of_bounds, Config, is_some,
}
use wzdftpd.Config.Comment.{config_line_is_comment}
use wzdftpd.Config.Edit.{put_values, remark, config_add_key, config_add_group}

unfoldable pub config_line_is_group : Bytes → Bool
unfolding has_char
config_line_is_group [] = false
config_line_is_group (c ∷ line) = c == b'[' && has_char b']' line

unfoldable pub config_line_is_keyvalue : Bytes → Bool
unfolding has_char
config_line_is_keyvalue [] = false
config_line_is_keyvalue (c ∷ line) = if c == b'=' then false else has_char b'=' line

unfoldable pub config_parse_comment : Config → Bytes → Config × Code
config_parse_comment config line = elim config.current_group [
  | none ↦ (config, no_current_group)
  | some i ↦ elim (get_elem? config.groups i) [
    | none ↦ (config, no_current_group)
    | some group ↦ (put_values config i group (group.values ++ remark line ∷ []), cf_ok)
  ]
]

-- The name between `line + 1` and the `]` at `e`. At `e = 0` the difference wraps, and `strndup`
-- copies up to the end of the line.
abbrev pub group_name : Bytes → ℕ → Bytes
group_name line e = if e == 0 then drop 1 line else take (e - 1) (drop 1 line)

-- The search for `]` runs down from `line + length - 1`, and past the start of the line if there
-- is none below.
unfoldable pub config_parse_group : Config → Bytes → ℕ → Config × Code
unfolding last_index_of config_add_group
config_parse_group config line len = elim (last_index_of b']' (take len line)) [
  | none ↦ (config, out_of_bounds)
  | some e ↦ (config_add_group config (group_name line e), cf_ok)
]

-- The value that starts at `start`. If `len` stands before it, the length wraps, the loop over
-- trailing spaces still ends at the key, and `strndup` copies up to the end of the line.
abbrev pub value_text : Bytes → ℕ → ℕ → Bytes
value_text line len start =
    if ltb len start then drop start line else trim_end (take (len - start) (drop start line))

-- Where the value starts, for an `=` at `p`.
abbrev pub value_start : Bytes → ℕ → ℕ
value_start line p = p + 1 + (length (drop (p + 1) line) - length (skip_spaces (drop (p + 1) line)))

-- The loop that drops the spaces behind the key stops before the line if the key is empty.
unfoldable pub parse_pair : Config → ℕ → Bytes → ℕ → ℕ → Bytes → Config × Code
unfolding skip_spaces config_add_key
parse_pair config i line len p [] = (config, out_of_bounds)
parse_pair config i line len p (c ∷ key) =
    if ltb len (length (c ∷ key) + 1)
    then (config, parse_error)
    else config_add_key config (some i) (c ∷ key) (value_text line len (value_start line p))

unfoldable pub config_parse_keyvalue : Config → Bytes → ℕ → Config × Code
unfolding index_of trim_end parse_pair
config_parse_keyvalue config line len = elim config.current_group [
  | none ↦ (config, no_current_group)
  | some i ↦ elim (get_elem? config.groups i) [
    | none ↦ (config, no_current_group)
    | some group ↦
        if is_some group.name
        then elim (index_of b'=' line) [
          | none ↦ (config, parse_error)
          | some p ↦ parse_pair config i line len p (trim_end (take p line))
        ]
        else (config, no_current_group)
  ]
]

-- The length that is passed on is shorter by the spaces at the start, and the line is not.
unfoldable pub config_parse_line : Config → Bytes → Config × Code
unfolding skip_spaces config_line_is_comment config_line_is_group config_line_is_keyvalue
    config_parse_comment config_parse_group config_parse_keyvalue
config_parse_line config line =
    let line_start = skip_spaces line in
    let len = length line_start in
    if config_line_is_comment line_start
    then config_parse_comment config line
    else if config_line_is_group line_start
    then config_parse_group config line len
    else if config_line_is_keyvalue line_start
    then config_parse_keyvalue config line len
    else (config, parse_error)

abbrev pub put_buffer : Config → Bytes → Config
put_buffer config s = record config { parse_buffer = some s }

abbrev pub empty_buffer : Config × Code → Config × Code
empty_buffer (config, code) = (put_buffer config [], code)

-- `str_length` of a NULL buffer is the largest `size_t`, so the NULL line reaches the parser.
unfoldable pub flush_text : Config → Option Bytes → Config × Code
unfolding config_parse_line
flush_text config none = (config, invalid_args)
flush_text config (some []) = (config, cf_ok)
flush_text config (some (c ∷ line)) = empty_buffer (config_parse_line config (c ∷ line))

unfoldable pub config_parse_flush_buffer : Config → Config × Code
unfolding flush_text
config_parse_flush_buffer config = flush_text config config.parse_buffer

-- A line end: the buffered line, if there is one, or a blank line.
unfoldable pub end_text : Config → Option Bytes → Config × Code
unfolding config_parse_flush_buffer config_parse_comment
end_text config (some []) = config_parse_comment config []
end_text config _ = config_parse_flush_buffer config

unfoldable pub end_line : Config → Config × Code
unfolding end_text
end_line config = end_text config config.parse_buffer

-- `if (length > 0 && buffer[length - 1] == '\r')` the last byte goes
abbrev pub strip_return : Bytes → Bytes
strip_return s = if ends_with b'\r' s then drop_last s else s

-- A newline at `i > 0`.
unfoldable pub newline_text : Config → Option Bytes → Config × Code
unfolding end_line ends_with drop_last
newline_text config none = (config, out_of_bounds)
newline_text config (some s) =
    let line = strip_return s in
    if ends_with b'\\' line
    then (put_buffer config (drop_last line), cf_ok)
    else end_line (put_buffer config line)

-- A newline; the flag is `i > 0`.
unfoldable pub parse_newline : Bool → Config → Config × Code
unfolding newline_text
parse_newline false config = end_line config
parse_newline true config = newline_text config config.parse_buffer

abbrev pub append_c : Option Bytes → ℕ → Bytes
append_c none c = c ∷ []
append_c (some s) c = s ++ c ∷ []

-- One round of the loop; the flag is `i > 0`.
unfoldable pub parse_byte : Bool → ℕ → Config → Config × Code
unfolding parse_newline
parse_byte later c config =
    if c == b'\n'
    then parse_newline later config
    else (put_buffer config (append_c config.parse_buffer c), cf_ok)

-- `if (ret) return ret;`
abbrev pub then_do : Config × Code → (Config → Config × Code) → Config × Code
then_do (config, cf_ok) f = f config
then_do (config, code) f = (config, code)

unfoldable pub parse_from : Bool → Bytes → Config → Config × Code
unfolding parse_byte
parse_from later [] config = (config, cf_ok)
parse_from later (c ∷ cs) config = then_do (parse_byte later c config) (parse_from true cs)

unfoldable pub config_parse_data : Bytes → Config → Config × Code
unfolding parse_from
config_parse_data = parse_from false

-- `config_parse_flush_buffer`, whose own result the two callers drop
abbrev pub last_line : Config → Config × Code
last_line config = ((config_parse_flush_buffer config).0, cf_ok)

unfoldable pub config_load_from_data : Config → Bytes → Bool → Config × Code
unfolding config_parse_data config_parse_flush_buffer
config_load_from_data config [] merge = (config, invalid_args)
config_load_from_data config (c ∷ data') merge =
    then_do (config_parse_data (c ∷ data') (record config { merge_multiple = merge })) last_line

-- The loop over what `read` returns, in chunks of at most 4096 bytes.
unfoldable pub parse_chunks : List Bytes → Config → Config × Code
unfolding config_parse_data
parse_chunks [] config = (config, cf_ok)
parse_chunks (chunk ∷ chunks) config =
    then_do (config_parse_data chunk config) (parse_chunks chunks)

-- A regular file that is not empty, and no error of `read`.
unfoldable pub config_load_from_fd : Config → List Bytes → Bool → Config × Code
unfolding parse_chunks config_parse_flush_buffer
config_load_from_fd config chunks merge =
    then_do (parse_chunks chunks (record config { merge_multiple = merge })) last_line
