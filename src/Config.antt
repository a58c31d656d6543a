-- ===== src/Config.antt =====
-- src/config/config.c. The text has exactly `length` bytes. A parse that fails ends with the line
-- and the reason in `*error`; the half-filled `*out` of a failed parse is not modelled.
pub mod Settings
pub mod Valid
pub mod Lines
use tunix_boot.Prelude.{
  ℕ, zero, suc, ◌+◌, ◌-◌, Bool, true, false, not, ◌&&◌, Option, none, some, List, [], ◌∷◌, ◌++◌,
  ltb, leb, ◌==◌, if◌then◌else◌, length, get_or, take, drop,
}
use tunix_boot.Prelude.Slices.{slice}
use tunix_boot.Util.Str.{Str, str_equal, str_equal_cstr, str_slice, str_trim, str_to_u64}

-- `struct config_entry`; the modules below `module_count`.
pub record ConfigEntry : Type 0 where
  pub name : Str
  pub kernel : Str
  pub cmdline : Str
  pub modules : List Str

-- `struct config`; the entries below `entry_count`.
pub record Config : Type 0 where
  pub timeout_seconds : ℕ
  pub default_entry : Str
  pub entries : List ConfigEntry

-- The literals that `error->reason` is set to.
pub data Reason : Type 0 where
  timeout_no_number timeout_too_long unknown_global no_value too_many_modules unknown_in_entry :
      Reason
  file_too_large line_too_long no_name too_many_entries name_exists no_setting no_kernel : Reason

-- What a function returns that may call `fail`.
pub data Outcome (A : Type 0) : Type 0 where
  ok : A → Outcome A
  refused : ℕ → Reason → Outcome A

-- The end of the line that `end` is in, with at most `more` bytes to go.
unfoldable pub line_end : ℕ → List ℕ → ℕ → ℕ
line_end zero text end = end
line_end (suc more) text end =
    if ltb end (length text) && not (get_or text end 0 == 10)
    then line_end more text (end + 1)
    else end

-- The line without its terminator, and the offset past it.
unfoldable pub next_line : List ℕ → ℕ → Str × ℕ
next_line text start =
    let end = line_end (length text - start) text start in
    let stop = if ltb start end && (get_or text (end - 1) 0 == 13) then end - 1 else end in
    (slice text start (stop - start), if ltb end (length text) then end + 1 else end)

-- The loop of `split_assignment`, with `more` bytes to go.
unfoldable pub split_from : ℕ → Str → ℕ → Option (Str × Str)
split_from zero line index = none
split_from (suc more) line index =
    let later = split_from more line (index + 1) in
    if not (get_or line index 0 == 61)
    then later
    else let key = str_trim (str_slice line 0 index) in
      let value = str_trim (str_slice line (index + 1) (length line - index - 1)) in
      if ltb 0 (length key) then some (key, value) else none

unfoldable pub split_assignment : Str → Option (Str × Str)
split_assignment line = split_from (length line) line 0

-- The string literals, with their terminator.
abbrev pub text_timeout : List ℕ
text_timeout = 116 ∷ 105 ∷ 109 ∷ 101 ∷ 111 ∷ 117 ∷ 116 ∷ 0 ∷ []

abbrev pub text_default : List ℕ
text_default = 100 ∷ 101 ∷ 102 ∷ 97 ∷ 117 ∷ 108 ∷ 116 ∷ 0 ∷ []

abbrev pub text_kernel : List ℕ
text_kernel = 107 ∷ 101 ∷ 114 ∷ 110 ∷ 101 ∷ 108 ∷ 0 ∷ []

abbrev pub text_cmdline : List ℕ
text_cmdline = 99 ∷ 109 ∷ 100 ∷ 108 ∷ 105 ∷ 110 ∷ 101 ∷ 0 ∷ []

abbrev pub text_module : List ℕ
text_module = 109 ∷ 111 ∷ 100 ∷ 117 ∷ 108 ∷ 101 ∷ 0 ∷ []

abbrev pub max_timeout_seconds : ℕ
max_timeout_seconds = 3600

abbrev pub max_modules : ℕ
max_modules = 8

abbrev pub max_entries : ℕ
max_entries = 16

unfoldable pub apply_global : Config → Str → Str → ℕ → Outcome Config
apply_global config key value line =
    if str_equal_cstr key (some text_timeout)
    then elim (str_to_u64 value) [
      | none ↦ refused line timeout_no_number
      | some seconds ↦
          if ltb max_timeout_seconds seconds
          then refused line timeout_too_long
          else ok (record config { timeout_seconds = seconds })
    ]
    else if str_equal_cstr key (some text_default)
    then ok (record config { default_entry = value })
    else refused line unknown_global

unfoldable pub apply_entry : ConfigEntry → Str → Str → ℕ → Outcome ConfigEntry
apply_entry entry key value line =
    if length value == 0
    then refused line no_value
    else if str_equal_cstr key (some text_kernel)
    then ok (record entry { kernel = value })
    else if str_equal_cstr key (some text_cmdline)
    then ok (record entry { cmdline = value })
    else if str_equal_cstr key (some text_module)
    then if length entry.modules == max_modules
      then refused line too_many_modules
      else ok (record entry { modules = entry.modules ++ value ∷ [] })
    else refused line unknown_in_entry

-- `clear_entry`, then the name.
abbrev pub named_entry : Str → ConfigEntry
named_entry name = record { name = name; kernel = []; cmdline = []; modules = [] }

-- The loop of `config_find`; `none` is NULL.
unfoldable pub find_entry : List ConfigEntry → Str → Option ConfigEntry
find_entry [] name = none
find_entry (e ∷ es) name = if str_equal e.name name then some e else find_entry es name

unfoldable pub config_find : Config → Str → Option ConfigEntry
config_find config name = find_entry config.entries name

unfoldable pub config_default_entry : Config → Option ConfigEntry
config_default_entry config = elim config.entries [
  | [] ↦ none
  | e ∷ es ↦
      if length config.default_entry == 0 then some e else config_find config config.default_entry
]

-- The assignment through `current`, which points at the last entry: `apply` to that one.
unfoldable pub update_last :
    (ConfigEntry → Outcome ConfigEntry) → List ConfigEntry → Outcome (List ConfigEntry)
update_last apply [] = ok []
update_last apply (e ∷ []) = elim (apply e) [
  | ok e' ↦ ok (e' ∷ [])
  | refused line reason ↦ refused line reason
]
update_last apply (e ∷ e' ∷ es) = elim (update_last apply (e' ∷ es)) [
  | ok rest ↦ ok (e ∷ rest)
  | refused line reason ↦ refused line reason
]

-- A setting goes to the entry that `current` points at. It is NULL as long as there are no entries.
unfoldable pub apply_setting : Config → Str → Str → ℕ → Outcome Config
apply_setting out key value line = elim out.entries [
  | [] ↦ apply_global out key value line
  | e ∷ es ↦ elim (update_last (λ current. apply_entry current key value line) (e ∷ es)) [
    | ok entries ↦ ok (record out { entries = entries })
    | refused at reason ↦ refused at reason
  ]
]

-- A line that begins with `:`.
unfoldable pub begin_entry : Config → Str → ℕ → Outcome Config
begin_entry out line line_number =
    let name = str_trim (str_slice line 1 (length line - 1)) in
    if length name == 0
    then refused line_number no_name
    else if length out.entries == max_entries
    then refused line_number too_many_entries
    else elim (config_find out name) [
      | some _ ↦ refused line_number name_exists
      | none ↦ ok (record out { entries = out.entries ++ named_entry name ∷ [] })
    ]

-- The body of the loop of `config_parse` for one trimmed line.
unfoldable pub take_line : Config → Str → ℕ → Outcome Config
take_line out line line_number =
    if length line == 0
    then ok out
    else if get_or line 0 0 == 35
    then ok out
    else if ltb 1024 (length line)
    then refused line_number line_too_long
    else if get_or line 0 0 == 58
    then begin_entry out line line_number
    else elim (split_assignment line) [
      | none ↦ refused line_number no_setting
      | some (key, value) ↦ apply_setting out key value line_number
    ]

-- The loop of `config_parse`: every round moves the offset, so as many rounds as there are bytes
-- are enough.
unfoldable pub config_lines : ℕ → List ℕ → ℕ → ℕ → Config → Outcome Config
config_lines zero text offset line_number out = ok out
config_lines (suc fuel) text offset line_number out = elim (ltb offset (length text)) [
  | false ↦ ok out
  | true ↦ elim (take_line out (str_trim (next_line text offset).0) (line_number + 1)) [
    | refused line reason ↦ refused line reason
    | ok out' ↦ config_lines fuel text (next_line text offset).1 (line_number + 1) out'
  ]
]

-- The loop after the lines: whether every entry has a kernel.
unfoldable pub all_kernels : List ConfigEntry → Bool
all_kernels [] = true
all_kernels (e ∷ es) = if length e.kernel == 0 then false else all_kernels es

abbrev pub default_config : Config
default_config = record { timeout_seconds = 5; default_entry = []; entries = [] }

unfoldable pub config_parse : List ℕ → Outcome Config
config_parse text =
    if ltb 65536 (length text)
    then refused 0 file_too_large
    else elim (config_lines (length text) text 0 0 default_config) [
      | refused line reason ↦ refused line reason
      | ok out ↦ if all_kernels out.entries then ok out else refused 0 no_kernel
    ]
