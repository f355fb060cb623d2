-- ===== src/Config/Chunks.antt =====
-- Reading a file in chunks, against parsing its bytes at once.
use wzdftpd.Base.{
  ℕ, Bool, true, false, List, [], ◌∷◌, ◌++◌, append-nil, Bytes, ◌≡◌, ◌≢◌, refl, sym, ap, ◌∙◌, ◌==◌,
  All,
}
use wzdftpd.Config.{Code, cf_ok, Config}
use wzdftpd.Config.Parse.{
  parse_byte, parse_from, parse_chunks, then_do, config_parse_data, config_load_from_data,
  config_load_from_fd,
}
use mathlib.Core.List.{flatten}
use mathlib.Core.Path.{fun_ext}

pub then_do_assoc :
    (r : Config × Code) (f g : Config → Config × Code)
    → then_do (then_do r f) g ≡ then_do r (λ c. then_do (f c) g)
then_do_assoc (config, cf_ok) f g = refl
then_do_assoc (config, _) f g = refl

then_do_done : (r : Config × Code) → then_do r (λ config. (config, cf_ok)) ≡ r
then_do_done (config, cf_ok) = refl
then_do_done (config, _) = refl

-- The flag is read at a newline only.
abbrev pub starts_line : Bytes → Bool
starts_line [] = false
starts_line (c ∷ cs) = c == b'\n'

parse_from-flag :
    (data' : Bytes) (config : Config)
    → starts_line data' ≡ false
    → parse_from true data' config ≡ parse_from false data' config
unfolding parse_from parse_byte
parse_from-flag [] config h = refl
parse_from-flag (c ∷ cs) config h = rw h

pub parse_from-append :
    (a b : Bytes) (config : Config)
    → parse_from true (a ++ b) config ≡ then_do (parse_from true a config) (parse_from true b)
unfolding parse_from
parse_from-append [] b config = refl
parse_from-append (c ∷ a) b config =
    rw (fun_ext (parse_from-append a b), then_do_assoc (parse_byte true c config))

config_parse_data-append :
    (c : ℕ) (a b : Bytes) (config : Config)
    → starts_line b ≡ false
    → config_parse_data ((c ∷ a) ++ b) config
      ≡ then_do (config_parse_data (c ∷ a) config) (config_parse_data b)
unfolding config_parse_data parse_from
config_parse_data-append c a b config h = rw (
  fun_ext (parse_from-append a b),
  then_do_assoc (parse_byte false c config),
  fun_ext (λ f. parse_from-flag b f h),
)

-- A chunk that `read` returns holds a byte, and does not start with a newline.
abbrev pub IsRest : Bytes → Type 0
IsRest chunk = (chunk ≢ []) × (starts_line chunk ≡ false)

starts_line-flatten :
    (chunks : List Bytes) → All IsRest chunks → starts_line (flatten chunks) ≡ false
unfolding flatten
starts_line-flatten [] h = refl
starts_line-flatten ([] ∷ chunks) h = absurd (h.0.0 refl)
starts_line-flatten ((c ∷ chunk) ∷ chunks) h = h.0.1

parse_chunks-flatten :
    (chunk : Bytes) (chunks : List Bytes) (config : Config)
    → chunk ≢ []
    → All IsRest chunks
    → parse_chunks (chunk ∷ chunks) config ≡ config_parse_data (chunk ++ flatten chunks) config
unfolding parse_chunks flatten
parse_chunks-flatten [] chunks config ne h = absurd (ne refl)
parse_chunks-flatten (c ∷ chunk) [] config ne h =
    then_do_done (config_parse_data (c ∷ chunk) config)
    ∙ ap (λ x. config_parse_data x config) (sym (append-nil (c ∷ chunk)))
parse_chunks-flatten (c ∷ chunk) (d ∷ chunks) config ne h =
    ap (then_do (config_parse_data (c ∷ chunk) config))
      (fun_ext (λ f. parse_chunks-flatten d chunks f h.0.0 h.1))
    ∙ sym (
        config_parse_data-append c chunk (flatten (d ∷ chunks)) config
          (starts_line-flatten (d ∷ chunks) h))

-- Loading a file in chunks, each with a byte and none but the first starting with a newline, is
-- loading all of its bytes at once: the same configuration and the same code.
pub config_load_from_fd-data :
    (config : Config) (chunk : Bytes) (chunks : List Bytes) (merge : Bool)
    → chunk ≢ []
    → All IsRest chunks
    → config_load_from_fd config (chunk ∷ chunks) merge
      ≡ config_load_from_data config (chunk ++ flatten chunks) merge
unfolding config_load_from_fd config_load_from_data
config_load_from_fd-data config [] chunks merge ne h = absurd (ne refl)
config_load_from_fd-data config (c ∷ chunk) chunks merge ne h =
    rw (parse_chunks-flatten (c ∷ chunk) chunks _ ne h)
