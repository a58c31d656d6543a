-- ===== src/Config/Settings.antt =====
-- What a configuration is like, and that a setting keeps it so.
use mathlib.Core.Path.{subst}
use tunix_boot.Prelude.{
  ℕ, suc, ◌≡◌, ◌≢◌, ◌≤◌, refl, sym, ap, List, [], ◌∷◌, arith, All, length, length-append,
}
use tunix_boot.Util.Str.{Str}
use tunix_boot.Config.{
  ConfigEntry, Config, Outcome, ok, refused, max_entries, max_modules, max_timeout_seconds,
  apply_global, apply_entry, update_last, apply_setting,
}

abbrev pub names : List ConfigEntry → List Str
names [] = []
names (e ∷ es) = e.name ∷ names es

abbrev pub Distinct : List Str → Type 0
Distinct [] = Unit
Distinct (n ∷ ns) = All (λ m. n ≢ m) ns × Distinct ns

abbrev pub IsEntry : ConfigEntry → Type 0
IsEntry e = (length e.name ≢ 0) × (length e.modules ≤ max_modules)

pub record IsConfig (c : Config) : Type 0 where
  pub timeout : c.timeout_seconds ≤ max_timeout_seconds
  pub entries : All IsEntry c.entries
  pub room : length c.entries ≤ max_entries
  pub distinct : Distinct (names c.entries)

abbrev pub HasKernel : ConfigEntry → Type 0
HasKernel e = length e.kernel ≢ 0

apply_global-IsConfig :
    (c : Config) (key value : Str) (line : ℕ) {c' : Config}
    → IsConfig c
    → apply_global c key value line ≡ ok c'
    → IsConfig c'
unfolding apply_global
apply_global-IsConfig c key value line {c'} v e = record {
  timeout = ground (arith, e, v.timeout);
  entries = subst (All IsEntry) same v.entries;
  room = subst (λ (es : List ConfigEntry). length es ≤ max_entries) same v.room;
  distinct = subst (λ (es : List ConfigEntry). Distinct (names es)) same v.distinct;
}
  where
    same : c.entries ≡ c'.entries
    same = ground (arith, e)

apply_entry-keeps :
    (entry : ConfigEntry) (key value : Str) (line : ℕ) {entry' : ConfigEntry}
    → IsEntry entry
    → apply_entry entry key value line ≡ ok entry'
    → IsEntry entry' × (entry'.name ≡ entry.name)
unfolding apply_entry
apply_entry-keeps entry key value line v e =
    ground (arith, e, v, length-append entry.modules (value ∷ []))

-- The predicate holds of the result, if there is one.
abbrev pub IfOk : {A : Type 0} → (A → Type 0) → Outcome A → Type 0
IfOk P (ok a) = P a
IfOk P (refused line reason) = Unit

pub to_IfOk : {A : Type 0} (P : A → Type 0) (o : Outcome A) → ((a : A) → o ≡ ok a → P a) → IfOk P o
to_IfOk P (ok a) h = h a refl
to_IfOk P (refused line reason) h = tt

abbrev Updates : List ConfigEntry → List ConfigEntry → Type 0
Updates es es' = All IsEntry es' × (names es' ≡ names es)

update_last-Updates :
    (apply : ConfigEntry → Outcome ConfigEntry) (es : List ConfigEntry)
    → ((e : ConfigEntry) → IsEntry e → IfOk (λ e'. IsEntry e' × (e'.name ≡ e.name)) (apply e))
    → All IsEntry es
    → IfOk (Updates es) (update_last apply es)
unfolding update_last
update_last-Updates apply [] keep v = (tt, refl)
update_last-Updates apply (e ∷ []) keep v = of_apply (apply e) (keep e v.0)
  where
    of_apply :
        (o : Outcome ConfigEntry)
        → IfOk (λ e'. IsEntry e' × (e'.name ≡ e.name)) o
        → IfOk
            (Updates (e ∷ []))
            (elim o [ ok e' ↦ ok (e' ∷ []) | refused line reason ↦ refused line reason ])
    of_apply (ok e') h = ((h.0, tt), ap (λ n. n ∷ []) h.1)
    of_apply (refused line reason) h = tt
update_last-Updates apply (e ∷ f ∷ es) keep v =
    of_rest (update_last apply (f ∷ es)) (update_last-Updates apply (f ∷ es) keep v.1)
  where
    of_rest :
        (o : Outcome (List ConfigEntry))
        → IfOk (Updates (f ∷ es)) o
        → IfOk
            (Updates (e ∷ f ∷ es))
            (elim o [ ok rest ↦ ok (e ∷ rest) | refused line reason ↦ refused line reason ])
    of_rest (ok rest) h = ((v.0, h.0), ap (λ ns. e.name ∷ ns) h.1)
    of_rest (refused line reason) h = tt

length-names : (es : List ConfigEntry) → length (names es) ≡ length es
length-names [] = refl
length-names (e ∷ es) = ap suc (length-names es)

with_entries-IsConfig :
    (c : Config) (es : List ConfigEntry)
    → IsConfig c
    → Updates c.entries es
    → IsConfig (record c { entries = es })
with_entries-IsConfig c es v u = record {
  timeout = v.timeout;
  entries = u.0;
  room = omega (
    arith,
    v.room,
    length-names es,
    length-names c.entries,
    ap (λ (ns : List Str). length ns) u.1,
  );
  distinct = subst Distinct (sym u.1) v.distinct;
}

pub apply_setting-IsConfig :
    (c : Config) (key value : Str) (line : ℕ)
    → IsConfig c
    → IfOk IsConfig (apply_setting c key value line)
unfolding apply_setting
apply_setting-IsConfig c key value line v = of_entries c.entries refl
  where
    apply : ConfigEntry → Outcome ConfigEntry
    apply current = apply_entry current key value line

    of_update :
        (o : Outcome (List ConfigEntry))
        → IfOk (Updates c.entries) o
        → IfOk IsConfig (elim o [
          | ok entries ↦ ok (record c { entries = entries })
          | refused at reason ↦ refused at reason
        ])
    of_update (ok es) u = with_entries-IsConfig c es v u
    of_update (refused at reason) u = tt

    of_entries :
        (es : List ConfigEntry)
        → c.entries ≡ es
        → IfOk IsConfig (elim es [
          | [] ↦ apply_global c key value line
          | e ∷ es ↦ elim (update_last (λ current. apply_entry current key value line) (e ∷ es)) [
            | ok entries ↦ ok (record c { entries = entries })
            | refused at reason ↦ refused at reason
          ]
        ])
    of_entries [] same =
        to_IfOk IsConfig (apply_global c key value line)
          (λ c' e. apply_global-IsConfig c key value line v e)
    of_entries (e ∷ es) same =
        of_update (update_last (λ current. apply_entry current key value line) (e ∷ es)) (
          subst (λ (all : List ConfigEntry). IfOk (Updates c.entries) (update_last apply all)) same
            (update_last-Updates apply c.entries
              (λ entry w.
                to_IfOk (λ entry'. IsEntry entry' × (entry'.name ≡ entry.name)) (apply entry)
                  (λ entry' ok_eq. apply_entry-keeps entry key value line w ok_eq))
              v.entries))
