-- ===== src/Tests/Config.antt =====
-- src/config and src/util/str.c on small inputs.
use tunix_boot.Prelude.{ℕ, ◌≡◌, refl, some, List, [], ◌∷◌, All}
use tunix_boot.Util.Checked.{checked_add, checked_mul}
use tunix_boot.Util.Str.{
  Str, is_space, lower, digit_value, length_before_nul, cstr_length, str_from_cstr, str_slice,
  equal_from, str_equal, str_equal_cstr, skip_spaces, drop_spaces, str_trim, digits_from,
  str_to_u64,
}
use tunix_boot.Util.Str.Numbers.{bounded, number_of, str_to_u64-eq-bounded}
use tunix_boot.Config.{
  Config, ok, config_parse, config_lines, next_line, line_end, take_line, begin_entry,
  split_assignment, split_from, apply_setting, update_last, apply_entry, config_find, find_entry,
  all_kernels,
}
use tunix_boot.Config.Settings.{IsConfig, HasKernel}
use tunix_boot.Config.Valid.{config_parse-IsConfig}

-- ":t\nkernel=/k\n"
abbrev file : List ℕ
file = 58 ∷ 116 ∷ 10 ∷ 107 ∷ 101 ∷ 114 ∷ 110 ∷ 101 ∷ 108 ∷ 61 ∷ 47 ∷ 107 ∷ 10 ∷ []

abbrev parsed : Config
parsed = record {
  timeout_seconds = 5;
  default_entry = [];
  entries = record { name = 116 ∷ []; kernel = 47 ∷ 107 ∷ []; cmdline = []; modules = [] } ∷ [];
}

config_parse_run : config_parse file ≡ ok parsed
unfolding config_parse config_lines next_line line_end take_line begin_entry split_assignment
    split_from apply_setting update_last apply_entry config_find find_entry all_kernels str_trim
    skip_spaces drop_spaces is_space str_slice str_equal_cstr str_equal equal_from str_from_cstr
    cstr_length length_before_nul
config_parse_run = refl

config_parse-IsConfig_example : IsConfig parsed × All HasKernel parsed.entries
config_parse-IsConfig_example = config_parse-IsConfig file config_parse_run

-- "0x1f" and " a ".
abbrev hex : Str
hex = 48 ∷ 120 ∷ 49 ∷ 102 ∷ []

abbrev padded : Str
padded = 32 ∷ 97 ∷ 32 ∷ []

str_to_u64_run : str_to_u64 hex ≡ some 0x1f
unfolding str_to_u64 digits_from digit_value lower checked_add checked_mul
str_to_u64_run = refl

str_to_u64-eq-bounded_example : str_to_u64 hex ≡ bounded (number_of hex)
str_to_u64-eq-bounded_example = str_to_u64-eq-bounded hex
