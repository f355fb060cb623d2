-- ===== src/Config/Feed.antt =====
-- The parser over one line of a file that it has read to the end of the line before.
use wzdftpd.Base.{
  ℕ, Bool, true, false, List, [], ◌∷◌, ◌++◌, append-nil, append_assoc, none, some, Bytes, ◌≡◌, sym,
  ap, ◌∙◌, ◌==◌, All, length, ends_with, skip_spaces, get_elem?-append_here, set-append_here,
}
use wzdftpd.Config.{cf_ok, Group, Config}
use wzdftpd.Config.Comment.{config_line_is_comment}
use wzdftpd.Config.Edit.{remark}
use wzdftpd.Config.Parse.{
  parse_byte, parse_newline, parse_from, then_do, put_buffer, end_line, config_parse_comment,
  config_parse_line, empty_buffer,
}

-- A string without a byte.
abbrev pub Without : ℕ → Bytes → Type 0
Without b s = All (λ c. (c == b) ≡ false) s

-- What the parser reads as one line: no newline, and no `\r` or `\` at its end.
pub record IsLine (s : Bytes) : Type 0 where
  pub whole : Without b'\n' s
  pub no_return : ends_with b'\r' s ≡ false
  pub no_join : ends_with b'\\' s ≡ false

-- The groups read so far, the last of them current, and the text in the buffer.
abbrev pub at_group : List Group → Group → Bool → Bytes → Config
at_group done group merge s = record {
  groups = done ++ group ∷ [];
  parse_buffer = some s;
  current_group = some (length done);
  merge_multiple = merge;
}

feed :
    (line rest s : Bytes) (config : Config)
    → Without b'\n' line
    → parse_from true (line ++ rest) (put_buffer config s)
      ≡ parse_from true rest (put_buffer config (s ++ line))
unfolding parse_from parse_byte
feed [] rest s config h = ap (λ t. parse_from true rest (put_buffer config t)) (sym (append-nil s))
feed (c ∷ line) rest s config h = rw h.0 (
    feed line rest (s ++ c ∷ []) config h.1
    ∙ ap (λ t. parse_from true rest (put_buffer config t)) (append_assoc s (c ∷ []) line))

feed_newline :
    (line rest : Bytes) (config : Config)
    → IsLine line
    → parse_from true (b'\n' ∷ rest) (put_buffer config line)
      ≡ then_do (end_line (put_buffer config line)) (parse_from true rest)
unfolding parse_from parse_byte parse_newline
feed_newline line rest config h = rw (h.no_return, h.no_join)

-- A line and its newline are read by `end_line`.
pub feed_line :
    (line rest : Bytes) (config : Config)
    → IsLine line
    → parse_from true (line ++ (b'\n' ∷ rest)) (put_buffer config [])
      ≡ then_do (end_line (put_buffer config line)) (parse_from true rest)
feed_line line rest config h =
    feed line (b'\n' ∷ rest) [] config h.whole ∙ feed_newline line rest config h

-- With a byte that is no newline in front, a fresh parser is as one behind a line end.
pub feed_first :
    (c : ℕ) (rest : Bytes) (config : Config)
    → (c == b'\n') ≡ false
    → config.parse_buffer ≡ none
    → parse_from false (c ∷ rest) config ≡ parse_from true (c ∷ rest) (put_buffer config [])
unfolding parse_from parse_byte
feed_first c rest config h n = rw (h, n)

comment_at_group :
    (done : List Group) (group : Group) (merge : Bool) (s line : Bytes)
    → config_parse_comment (at_group done group merge s) line
      ≡ (at_group done (record group { values = group.values ++ remark line ∷ [] }) merge s, cf_ok)
unfolding config_parse_comment
comment_at_group done group merge s line =
    rw (get_elem?-append_here done [] group, config_parse_comment)
      (ap (λ gs. (record (at_group done group merge s) { groups = gs }, cf_ok))
        (set-append_here done [] group _))

-- A comment line, blank ones included, goes to the end of the current group.
pub end_comment :
    (done : List Group) (group : Group) (merge : Bool) (line : Bytes)
    → config_line_is_comment (skip_spaces line) ≡ true
    → end_line (at_group done group merge line)
      ≡ (at_group done (record group { values = group.values ++ remark line ∷ [] }) merge [], cf_ok)
unfolding end_line config_parse_line
end_comment done group merge [] h = comment_at_group done group merge [] []
end_comment done group merge (c ∷ line) h =
    rw (h) (ap empty_buffer (comment_at_group done group merge (c ∷ line) (c ∷ line)))
