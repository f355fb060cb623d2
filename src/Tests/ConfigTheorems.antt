-- ===== src/Tests/ConfigTheorems.antt =====
-- The theorems on configuration files at concrete files.
use wzdftpd.Base.{
  if◌then◌else◌, ◌&&◌, [], ◌∷◌, ◌++◌, none, some, false, ◌≡◌, refl, codes, Bytes, str_eq, List,
}
use mathlib.Core.List.{flatten}
use wzdftpd.Config.{Config, KeyValue, Group, cf_ok, config_init, config_get_value}
use wzdftpd.Config.Chunks.{config_load_from_fd-data}
use wzdftpd.Config.Edit.{config_set_value, config_remove_key, pair, remark}
use wzdftpd.Config.Invariant.{IsValid}
use wzdftpd.Config.Parse.{config_load_from_data, config_load_from_fd}
use wzdftpd.Config.Print.{config_to_data}
use wzdftpd.Config.Printable.{IsPrintable}
use wzdftpd.Config.RoundTrip.{config_load_from_data-to_data}
use wzdftpd.Config.Steps.{Reach, new, next, load, set_value, Reach-IsValid, config_remove_key-get}
use wzdftpd.Config.Store.{config_set_value-get}
use wzdftpd.Tests.ConfigFile.{runs}

abbrev top_lines : List KeyValue
top_lines = remark (codes "# a") ∷ []

abbrev section : Group
section = record {
  name = some (codes "G");
  comment = none;
  values = pair (codes "port") (codes "21 x") ∷ remark [] ∷ [];
}

abbrev file : Config
file = record {
  groups = record { name = none; comment = none; values = top_lines } ∷ section ∷ [];
  parse_buffer = none;
  current_group = some 1;
  merge_multiple = false;
}

file-IsPrintable : IsPrintable file
unfolding runs
file-IsPrintable = record {
  top = top_lines;
  rest = section ∷ [];
  groups = refl;
  comments = (
    record {
      line = record { whole = (refl, (refl, (refl, tt))); no_return = refl; no_join = refl };
      mark = refl;
    },
    tt,
  );
  sections = (
    record {
      name = codes "G";
      is_named = refl;
      no_comment = refl;
      one_line = (refl, tt);
      keys = (refl, (tt, tt));
      entries = (
        (
          refl,
          record {
            front = refl;
            back = refl;
            no_hash = refl;
            no_bracket = refl;
            no_equals = (refl, (refl, (refl, (refl, tt))));
            one_line = (refl, (refl, (refl, (refl, tt))));
          },
          record {
            front = refl;
            back = refl;
            one_line = (refl, (refl, (refl, (refl, tt))));
            no_return = refl;
            no_join = refl;
          },
        ),
        (
          record { line = record { whole = tt; no_return = refl; no_join = refl }; mark = refl },
          tt,
        ),
      );
    },
    tt,
  );
  keys = (tt, tt);
  opens = λ e. cc e;
}

config_load_from_data-to_data_example :
    let r = config_load_from_data config_init (config_to_data file) false in
    (r.1 ≡ cf_ok) × (r.0.groups ≡ file.groups)
config_load_from_data-to_data_example = config_load_from_data-to_data file false file-IsPrintable

config_set_value-get_example :
    let r = config_set_value file (codes "G") (codes "port") (some (codes "22")) in
    (r.1 ≡ cf_ok)
    × (config_get_value r.0 (codes "G") (codes "port") ≡ (
        if str_eq (codes "G") (codes "G") && str_eq (codes "port") (codes "port")
        then some (codes "22")
        else config_get_value file (codes "G") (codes "port")))
config_set_value-get_example =
    config_set_value-get file (codes "G") (codes "port") (codes "22") (codes "G") (codes "port")

abbrev loaded : Config
loaded = (config_load_from_data config_init (codes "[G]\na=1\na=2\n") false).0

loaded-Reach : Reach (config_set_value loaded (codes "H") (codes "k") (some (codes "v"))).0
loaded-Reach =
    next (next new (load (codes "[G]\na=1\na=2\n") false))
      (set_value (codes "H") (codes "k") (some (codes "v")))

Reach-IsValid_example :
    IsValid (config_set_value loaded (codes "H") (codes "k") (some (codes "v"))).0
Reach-IsValid_example = Reach-IsValid loaded-Reach

loaded-IsValid : IsValid loaded
loaded-IsValid = Reach-IsValid (next new (load (codes "[G]\na=1\na=2\n") false))

config_remove_key-get_example :
    config_get_value (config_remove_key loaded (codes "G") (codes "a")).0 (codes "G") (codes "a")
    ≡ (if str_eq (codes "G") (codes "G") && str_eq (codes "a") (codes "a")
        then none
        else config_get_value loaded (codes "G") (codes "a"))
config_remove_key-get_example =
    config_remove_key-get loaded (codes "G") (codes "a") (codes "G") (codes "a") loaded-IsValid

abbrev first_chunk : Bytes
first_chunk = codes "[G]\na="

abbrev other_chunks : List Bytes
other_chunks = codes "1\n" ∷ codes "b=2" ∷ []

config_load_from_fd-data_example :
    config_load_from_fd config_init (first_chunk ∷ other_chunks) false
    ≡ config_load_from_data config_init (first_chunk ++ flatten other_chunks) false
config_load_from_fd-data_example =
    config_load_from_fd-data config_init first_chunk other_chunks false (λ e. cc e)
      (((λ e. cc e), refl), (((λ e. cc e), refl), tt))
