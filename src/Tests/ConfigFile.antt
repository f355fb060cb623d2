-- ===== src/Tests/ConfigFile.antt =====
-- libwzd-core/wzd_configfile.c on small files.
use wzdftpd.Base.{[], ◌∷◌, none, some, false, ◌≡◌, refl, codes, Bytes, str_eq}
use wzdftpd.Config.{
  Config, invalid_args, out_of_bounds, config_init, config_get_value, config_get_groups, named,
}
use wzdftpd.Config.Edit.{config_set_value}
use wzdftpd.Config.Parse.{config_load_from_data}
use wzdftpd.Config.Print.{config_to_data}

abbrev load : Bytes → Config
load data' = (config_load_from_data config_init data' false).0

unfoldable pub runs : Unit {0}
unfolding config_init config_get_value config_get_groups config_load_from_data config_set_value
    config_to_data named str_eq
runs = tt

abbrev sample : Bytes
sample = codes "# top\n[GLOBAL]\nport = 21\n# c\nlist=a,\\\nb \r\n\n[two]\nx = y z"

sample-groups :
    config_get_groups (load sample) ≡ none ∷ some (codes "GLOBAL") ∷ some (codes "two") ∷ []
unfolding runs
sample-groups = refl

sample-value : config_get_value (load sample) (codes "GLOBAL") (codes "list") ≡ some (codes "a,b")
unfolding runs
sample-value = refl

sample-print :
    config_to_data (load sample)
    ≡ codes "# top\n[GLOBAL]\nport = 21\n# c\nlist = a,b\n\n[two]\nx = y z\n"
unfolding runs
sample-print = refl

blank_first : (config_load_from_data config_init (codes "\n[a]\n") false).1 ≡ invalid_args
unfolding runs
blank_first = refl

indented_group : (config_load_from_data config_init (codes "  [abc]\n") false).1 ≡ out_of_bounds
unfolding runs
indented_group = refl
