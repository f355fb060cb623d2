-- ===== src/Config/InvariantComments.antt =====
-- The operations on comments keep a file valid.
use wzdftpd.Base.{
  ℕ, List, [], ◌∷◌, Option, none, some, Bytes, ◌≡◌, refl, inl, inr, Option-cases, get_elem?,
}
use wzdftpd.Config.{Group, Config, lookup_group, lookup_keyvalue}
use wzdftpd.Config.Comment.{
  config_line_is_comment, key_comment_in, config_set_key_comment, put_comment, group_comment_in,
  config_set_group_comment, top_comment_in, config_set_top_comment, config_set_comment,
}
use wzdftpd.Config.Edit.{remark}
use wzdftpd.Config.Invariant.{
  IsValid, HasUniqueKeys, StartsUnnamed, All-get_elem?, set-IsValid, put_values-IsValid, if-IsValid,
}
use wzdftpd.Config.Lookup.{lookup_group-get_elem?}
use wzdftpd.Config.UniqueComments.{UniqueKeys-uncommented, UniqueKeys-commented}

key_comment_in-IsValid :
    (file : Config) (i : ℕ) (group : Group) (key : Bytes) (comment : Option Bytes)
    → IsValid file
    → get_elem? file.groups i ≡ some group
    → IsValid (key_comment_in file i group key comment).0
unfolding key_comment_in
key_comment_in-IsValid file i group key none v e =
    let u = All-get_elem? HasUniqueKeys file.groups i group v.keys e in
    elim (Option-cases (lookup_keyvalue group.values key)) [
      | inl h ↦ rw (h, key_comment_in) v
      | inr (j, h) ↦
          rw (h, key_comment_in)
            (put_values-IsValid file i group _ v e (UniqueKeys-uncommented group.values j u))
    ]
key_comment_in-IsValid file i group key (some text) v e =
    let u = All-get_elem? HasUniqueKeys file.groups i group v.keys e in
    elim (Option-cases (lookup_keyvalue group.values key)) [
      | inl h ↦ rw (h, key_comment_in) v
      | inr (j, h) ↦
          rw (h, key_comment_in)
            (put_values-IsValid file i group _ v e (UniqueKeys-commented group.values j text u))
    ]

key_comment-IsValid :
    (file : Config) (groupname key : Bytes) (comment : Option Bytes)
    → IsValid file
    → IsValid (config_set_key_comment file groupname key comment).0
unfolding config_set_key_comment
key_comment-IsValid file groupname key comment v =
    elim (Option-cases (lookup_group file.groups groupname)) [
      | inl h ↦ rw (h, config_set_key_comment) v
      | inr (i, h) ↦
          let (group, e) = lookup_group-get_elem? file.groups groupname i h in
          rw (h, config_set_key_comment)
            (rw e (key_comment_in-IsValid file i group key comment v e))
    ]

put_comment-IsValid :
    (file : Config) (i : ℕ) (group : Group) (comment : Option Bytes)
    → IsValid file
    → get_elem? file.groups i ≡ some group
    → IsValid (put_comment file i group comment)
put_comment-IsValid file i group comment v e =
    set-IsValid file i group _ v e refl (All-get_elem? HasUniqueKeys file.groups i group v.keys e)

group_comment_in-IsValid :
    (file : Config) (i : ℕ) (group : Group) (comment : Option Bytes)
    → IsValid file
    → get_elem? file.groups i ≡ some group
    → IsValid (group_comment_in file i group comment).0
unfolding group_comment_in
group_comment_in-IsValid file i group none v e = put_comment-IsValid file i group none v e
group_comment_in-IsValid file i group (some text) v e =
    if-IsValid (config_line_is_comment text) _ _ (put_comment-IsValid file i group (some text) v e)
      (put_comment-IsValid file i group none v e)

group_comment-IsValid :
    (file : Config) (groupname : Bytes) (comment : Option Bytes)
    → IsValid file
    → IsValid (config_set_group_comment file groupname comment).0
unfolding config_set_group_comment
group_comment-IsValid file groupname comment v =
    elim (Option-cases (lookup_group file.groups groupname)) [
      | inl h ↦ rw (h, config_set_group_comment) v
      | inr (i, h) ↦
          let (group, e) = lookup_group-get_elem? file.groups groupname i h in
          rw (h, config_set_group_comment)
            (rw e (group_comment_in-IsValid file i group comment v e))
    ]

top_comment_in-IsValid :
    (file : Config) (group : Group) (comment : Option Bytes)
    → IsValid file
    → get_elem? file.groups 0 ≡ some group
    → IsValid (top_comment_in file group comment).0
unfolding top_comment_in
top_comment_in-IsValid file group none v e = put_values-IsValid file 0 group [] v e tt
top_comment_in-IsValid file group (some text) v e =
    if-IsValid (config_line_is_comment text) _ _
      (put_values-IsValid file 0 group (remark text ∷ []) v e (tt, tt))
      (put_values-IsValid file 0 group [] v e tt)

pub StartsUnnamed-head :
    (gs : List Group)
    → StartsUnnamed gs
    → (group : Group) × (get_elem? gs 0 ≡ some group) × (group.name ≡ none)
StartsUnnamed-head [] h = absurd h
StartsUnnamed-head (g ∷ gs) h = (g, refl, h)

-- In a valid file there is a group for the comments at the top.
set_top_comment_step :
    (file : Config) (comment : Option Bytes)
    → IsValid file
    → (group : Group) × (get_elem? file.groups 0 ≡ some group)
      × (config_set_top_comment file comment ≡ top_comment_in file group comment)
unfolding config_set_top_comment
set_top_comment_step file comment v =
    let (group, e, n) = StartsUnnamed-head file.groups v.top in
    (group, e, rw (e, config_set_top_comment, n))

top_comment-IsValid :
    (file : Config) (comment : Option Bytes)
    → IsValid file
    → IsValid (config_set_top_comment file comment).0
top_comment-IsValid file comment v =
    let (group, e, t) = set_top_comment_step file comment v in
    rw t (top_comment_in-IsValid file group comment v e)

pub config_set_comment-IsValid :
    (file : Config) (groupname key comment : Option Bytes)
    → IsValid file
    → IsValid (config_set_comment file groupname key comment).0
unfolding config_set_comment
config_set_comment-IsValid file (some g) (some k) comment v = key_comment-IsValid file g k comment v
config_set_comment-IsValid file (some g) none comment v = group_comment-IsValid file g comment v
config_set_comment-IsValid file none key comment v = top_comment-IsValid file comment v
