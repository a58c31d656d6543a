-- ===== src/Config/Valid.antt =====
-- What a configuration that parses is like, whatever the file says.
use mathlib.Core.Path.{subst}
use tunix_boot.Prelude.{
  ℕ, zero, suc, ◌+◌, ◌-◌, ◌≡◌, ◌≢◌, inl, inr, Bool, true, false, Option, none, some, List, [], ◌∷◌,
  ◌++◌, arith, All, All-append, length, length-append, ltb, ◌==◌, if◌then◌else◌, Bool-cases,
  Option-cases, get_or,
}
use tunix_boot.Util.Str.{Str, str_trim, str_slice}
use tunix_boot.Util.Str.Equal.{str_equal-eq_iff}
use tunix_boot.Config.{
  ConfigEntry, Config, Outcome, ok, refused, no_setting, no_kernel, max_entries, named_entry,
  find_entry, config_find, apply_setting, begin_entry, take_line, split_assignment, next_line,
  config_lines, all_kernels, default_config, config_parse,
}
use tunix_boot.Config.Settings.{
  names, Distinct, IsEntry, IsConfig, HasKernel, IfOk, to_IfOk, apply_setting-IsConfig,
}

find_entry-none :
    (es : List ConfigEntry) (name : Str)
    → find_entry es name ≡ none
    → All (λ n. n ≢ name) (names es)
unfolding find_entry
find_entry-none [] name e = tt
find_entry-none (x ∷ es) name e = (
  λ same. absurd (ground (arith, e, (str_equal-eq_iff x.name name).1 same)),
  find_entry-none es name (ground (arith, e)),
)

Distinct-append :
    (es : List ConfigEntry) (f : ConfigEntry)
    → Distinct (names es)
    → All (λ n. n ≢ f.name) (names es)
    → Distinct (names (es ++ f ∷ []))
Distinct-append [] f d h = (tt, tt)
Distinct-append (e ∷ es) f d h = (differs es d.0, Distinct-append es f d.1 h.1)
  where
    differs :
        (xs : List ConfigEntry)
        → All (λ m. e.name ≢ m) (names xs)
        → All (λ m. e.name ≢ m) (names (xs ++ f ∷ []))
    differs [] k = (h.0, tt)
    differs (x ∷ xs) k = (k.0, differs xs k.1)

added-IsConfig :
    (c : Config) (name : Str)
    → IsConfig c
    → length name ≢ 0
    → length c.entries ≢ max_entries
    → find_entry c.entries name ≡ none
    → IsConfig (record c { entries = c.entries ++ named_entry name ∷ [] })
added-IsConfig c name v some_name room free = record {
  timeout = v.timeout;
  entries =
      All-append IsEntry c.entries (named_entry name ∷ []) v.entries ((some_name, omega arith), tt);
  room = omega (arith, v.room, room, length-append c.entries (named_entry name ∷ []));
  distinct =
      Distinct-append c.entries (named_entry name) v.distinct (find_entry-none c.entries name free);
}

begin_entry-IsConfig :
    (c : Config) (line : Str) (n : ℕ) → IsConfig c → IfOk IsConfig (begin_entry c line n)
unfolding begin_entry config_find
begin_entry-IsConfig c line n v = to_IfOk IsConfig (begin_entry c line n) accepted
  where
    name : Str
    name = str_trim (str_slice line 1 (length line - 1))

    accepted : (c' : Config) → begin_entry c line n ≡ ok c' → IsConfig c'
    accepted c' e = elim (Option-cases (find_entry c.entries name)) [
      | inr (other, found) ↦ absurd (ground (arith, found, e))
      | inl free ↦
          subst IsConfig (ground (arith, free, e))
            (added-IsConfig c name v (ground (arith, free, e)) (ground (arith, free, e)) free)
    ]

take_line-IsConfig :
    (c : Config) (line : Str) (n : ℕ) → IsConfig c → IfOk IsConfig (take_line c line n)
unfolding take_line
take_line-IsConfig c line n v = elim (Bool-cases (length line == 0)) [
  | inl blank ↦ rw blank v
  | inr text ↦ rw text (elim (Bool-cases (get_or line 0 0 == 35)) [
    | inl comment ↦ rw comment v
    | inr code ↦ rw code (elim (Bool-cases (ltb 1024 (length line))) [
      | inl long ↦ rw long tt
      | inr short ↦ rw short (elim (Bool-cases (get_or line 0 0 == 58)) [
        | inl entry ↦ rw entry (begin_entry-IsConfig c line n v)
        | inr setting ↦ rw setting (of_split (split_assignment line))
      ])
    ])
  ])
]
  where
    of_split :
        (o : Option (Str × Str))
        → IfOk IsConfig (elim o [
          | none ↦ refused n no_setting
          | some (key, value) ↦ apply_setting c key value n
        ])
    of_split none = tt
    of_split (some (key, value)) = apply_setting-IsConfig c key value n v

config_lines-IsConfig :
    (fuel : ℕ) (text : List ℕ) (offset n : ℕ) (c : Config)
    → IsConfig c
    → IfOk IsConfig (config_lines fuel text offset n c)
unfolding config_lines
config_lines-IsConfig zero text offset n c v = v
config_lines-IsConfig (suc fuel) text offset n c v = of_test (ltb offset (length text)) (
    of_line (λ c' w. config_lines-IsConfig fuel text (next_line text offset).1 (n + 1) c' w)
      (take_line c (str_trim (next_line text offset).0) (n + 1))
      (take_line-IsConfig c (str_trim (next_line text offset).0) (n + 1) v))
  where
    following : Outcome Config → Outcome Config
    following o = elim o [
      | refused line reason ↦ refused line reason
      | ok out' ↦ config_lines fuel text (next_line text offset).1 (n + 1) out'
    ]

    of_line :
        ((c' : Config)
          → IsConfig c'
          → IfOk IsConfig (config_lines fuel text (next_line text offset).1 (n + 1) c'))
        → (o : Outcome Config) → IfOk IsConfig o
        → IfOk IsConfig (following o)
    of_line later (ok c') w = later c' w
    of_line later (refused line reason) w = tt

    of_test :
        (b : Bool)
        → IfOk IsConfig (following (take_line c (str_trim (next_line text offset).0) (n + 1)))
        → IfOk IsConfig (elim b [
          | false ↦ ok c
          | true ↦ elim (take_line c (str_trim (next_line text offset).0) (n + 1)) [
            | refused line reason ↦ refused line reason
            | ok out' ↦ config_lines fuel text (next_line text offset).1 (n + 1) out'
          ]
        ])
    of_test true w = w
    of_test false w = v

default_config-IsConfig : IsConfig default_config
default_config-IsConfig = record {
  timeout = omega arith;
  entries = tt;
  room = omega arith;
  distinct = tt;
}

all_kernels-HasKernel : (es : List ConfigEntry) → all_kernels es ≡ true → All HasKernel es
unfolding all_kernels
all_kernels-HasKernel [] h = tt
all_kernels-HasKernel (e ∷ es) h = (ground arith, all_kernels-HasKernel es (ground arith))

-- A configuration that `config_parse` accepts, whatever the file says, has at most 16 entries with
-- at most 8 modules each, names that are not empty and all different, a kernel in every entry, and
-- a timeout of at most an hour.
pub config_parse-IsConfig :
    (text : List ℕ) {c : Config} → config_parse text ≡ ok c → IsConfig c × All HasKernel c.entries
unfolding config_parse
config_parse-IsConfig text {c} e =
    of_lines (config_lines (length text) text 0 0 default_config)
      (config_lines-IsConfig (length text) text 0 0 default_config default_config-IsConfig)
      (ground (arith, e))
  where
    of_lines :
        (o : Outcome Config)
        → IfOk IsConfig o
        → (elim o [
          | refused line reason ↦ refused line reason
          | ok out ↦ if all_kernels out.entries then ok out else refused 0 no_kernel
        ])
          ≡ ok c
        → IsConfig c × All HasKernel c.entries
    of_lines (refused line reason) v r = absurd cc
    of_lines (ok out) v r = elim (Bool-cases (all_kernels out.entries)) [
      | inr missing ↦ absurd (ground (arith, missing, r))
      | inl kernels ↦
          subst (λ (d : Config). IsConfig d × All HasKernel d.entries) (ground (arith, kernels, r))
            (v, all_kernels-HasKernel out.entries kernels)
    ]
