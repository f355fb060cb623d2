-- ===== src/Config/Print.antt =====
-- libwzd-core/wzd_configfile.c: `config_to_data`. `str_append_printf` appends the formatted text.
use wzdftpd.Base.{List, [], ◌∷◌, ◌++◌, Option, none, some, Bytes, codes}
use wzdftpd.Config.{KeyValue, Group, Config}

abbrev newline : Bytes
newline = b'\n' ∷ []

abbrev print_optional : Option Bytes → (Bytes → Bytes) → Bytes
print_optional none f = []
print_optional (some s) f = f s

abbrev pub print_line : Option Bytes → Bytes → Bytes
print_line none value = value
print_line (some key) value = key ++ (codes " = " ++ value)

unfoldable pub print_values : List KeyValue → Bytes
print_values [] = []
print_values (kv ∷ kvs) = print_line kv.key kv.value ++ (b'\n' ∷ print_values kvs)

abbrev pub header : Bytes → Bytes
header name = b'[' ∷ (name ++ (b']' ∷ b'\n' ∷ []))

unfoldable pub print_group : Group → Bytes
unfolding print_values
print_group group =
    print_optional group.comment (λ c. c ++ newline)
    ++ (print_optional group.name header ++ print_values group.values)

unfoldable pub print_groups : List Group → Bytes
unfolding print_group
print_groups [] = []
print_groups (g ∷ gs) = print_group g ++ print_groups gs

unfoldable pub config_to_data : Config → Bytes
unfolding print_groups
config_to_data config = print_groups config.groups
