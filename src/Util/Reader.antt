-- ===== src/Util/Reader.antt =====
-- src/util/reader.c: a cursor over a buffer whose contents are not trusted. A function of the
-- source that moves the cursor is an action: it returns its value (`none` is `false` or NULL) and
-- the reader that it leaves behind.
pub mod Scalar
pub mod Bounds
pub mod At
use tunix_boot.Prelude.{
  ℕ, zero, suc, ◌+◌, ◌-◌, ◌*◌, ◌%◌, ◌^◌, bit_or, Bool, true, false, not, Option, none, some, List,
  [], ◌∷◌, ltb, leb, if◌then◌else◌, length, get_or, take, drop,
}
use tunix_boot.Prelude.Word.{u8_mod, u16_mod, u32_mod, add64, sub64}

-- `base[i]` of the source is `get_or base i 0`; a read past the end, which the guards exclude, would
-- give 0 here.
pub record Reader : Type 0 where
  pub base : List ℕ
  pub length : ℕ
  pub position : ℕ

abbrev pub Read : Type 0 → Type 0
Read A = Reader → Option A × Reader

infixl 5 ◌>>=◌ ◌>>◌
abbrev pub ◌>>=◌ : {A B : Type 0} → Read A → (A → Read B) → Read B
◌>>=◌ m f r = let (o, r') = m r in elim o [ none ↦ (none, r') | some a ↦ f a r' ]

abbrev pub ◌>>◌ : {A B : Type 0} → Read A → Read B → Read B
m >> k = m >>= λ _. k

abbrev pub pure : {A : Type 0} → A → Read A
pure a r = (some a, r)

-- `reader_init`; a NULL base is `none`.
unfoldable pub init : Option (List ℕ) → ℕ → Reader
init none n = record { base = []; length = 0; position = 0 }
init (some bytes) n = record { base = bytes; length = n; position = 0 }

unfoldable pub has : Reader → ℕ → Bool
has r count = leb count (sub64 r.length r.position)

unfoldable pub remaining : Reader → ℕ
remaining r = sub64 r.length r.position

unfoldable pub seek : ℕ → Read (Unit {0})
seek offset r = if ltb r.length offset then (none, r) else (some tt, record r { position = offset })

unfoldable pub skip : ℕ → Read (Unit {0})
unfolding has
skip count r =
    if not (has r count)
    then (none, r)
    else (some tt, record r { position = add64 r.position count })

-- The loop of `little_endian`: `bytes[index]` and on, shifted to bit `8 * index`.
unfoldable pub little_endian_from : ℕ → List ℕ → ℕ → ℕ → ℕ
little_endian_from zero bytes index value = value
little_endian_from (suc width) bytes index value =
    little_endian_from width bytes (index + 1)
      (bit_or value (get_or bytes index 0 * 2 ^ (index * 8)))

unfoldable pub little_endian : List ℕ → ℕ → ℕ
unfolding little_endian_from
little_endian bytes width = little_endian_from width bytes 0 0

unfoldable pub scalar : ℕ → Read ℕ
unfolding has little_endian
scalar width r = if not (has r width) then (none, r) else (
  some (little_endian (drop r.position r.base) width),
  record r { position = add64 r.position width },
)

unfoldable pub read_u8 : Read ℕ
read_u8 = do value ← scalar 1; pure (value % u8_mod)

unfoldable pub read_u16 : Read ℕ
read_u16 = do value ← scalar 2; pure (value % u16_mod)

unfoldable pub read_u32 : Read ℕ
read_u32 = do value ← scalar 4; pure (value % u32_mod)

unfoldable pub read_u64 : Read ℕ
read_u64 = scalar 8

-- `reader_take`: the pointer to the bytes at the cursor. A NULL base is an empty buffer here, so taking
-- no bytes from one succeeds, where the pointer that the source returns is NULL.
unfoldable pub take_bytes : ℕ → Read (List ℕ)
unfolding has
take_bytes count r =
    if not (has r count)
    then (none, r)
    else (some (drop r.position r.base), record r { position = add64 r.position count })

-- `reader_bytes`, which copies `count` bytes from there.
unfoldable pub read_bytes : ℕ → Read (List ℕ)
unfolding take_bytes
read_bytes count = do source ← take_bytes count; pure (take count source)

unfoldable pub peek_u8 : Reader → ℕ → Option ℕ
unfolding remaining
peek_u8 r offset =
    if leb (remaining r) offset then none else some (get_or r.base (r.position + offset) 0)
