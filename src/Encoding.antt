-- ===== src/Encoding.antt =====
-- zkvm/src/encoding.rs: the reader over a byte slice, and the writers that append to a buffer.
-- A reader method takes the reader and returns its value with the reader after it.
pub mod Reads
pub mod Safe
use zioncoin_poc.Prelude.{ℕ, ◌+◌, ◌-◌, ◌%◌, ◌^◌, Bool, Option, none, some, List, [], ◌∷◌, ◌++◌}
use zioncoin_poc.Prelude.{ltb, leb, ◌==◌, if◌then◌else◌, length, take, drop}
use zioncoin_poc.Prelude.Result.{Result, ok, err, panic, stuck}
use zioncoin_poc.Prelude.Bytes.{Bytes}
use zioncoin_poc.External.{LittleEndian}
use zioncoin_poc.Errors.{VmError, format_error, trailing_bytes}

pub record SliceReader : Type 0 where
  pub whole : Bytes
  pub start : ℕ
  pub end : ℕ

abbrev pub Reader {ℓ} : Type ℓ → Type ℓ
Reader A = SliceReader → Result VmError (A × SliceReader)

infixl 5 ◌>>=◌ ◌>>◌
abbrev pub ◌>>=◌ {ℓ κ} : {A : Type ℓ} {B : Type κ} → Reader A → (A → Reader B) → Reader B
◌>>=◌ m f r = elim (m r) [ ok p ↦ f p.0 p.1 | err e ↦ err e | panic ↦ panic | stuck ↦ stuck ]

abbrev pub ◌>>◌ {κ} : {B : Type κ} → Reader (Unit {0}) → Reader B → Reader B
m >> k = m >>= λ _. k

abbrev pub pure {ℓ} : {A : Type ℓ} → A → Reader A
pure a r = ok (a, r)

abbrev pub fail {ℓ} : {A : Type ℓ} → VmError → Reader A
fail e r = err e

abbrev pub new : Bytes → SliceReader
new bytes = record { whole = bytes; start = 0; end = length bytes }

-- A `usize` subtraction: `start ≤ end` holds in every reader.
unfoldable pub len : SliceReader → ℕ
len r = r.end - r.start

unfoldable pub parse {ℓ} : {A : Type ℓ} → Bytes → Reader A → Result VmError A
unfolding len
parse bytes parse_fn = elim (parse_fn (new bytes)) [
  | ok p ↦ if len p.1 == 0 then ok p.0 else err trailing_bytes
  | err e ↦ err e
  | panic ↦ panic
  | stuck ↦ stuck
]

unfoldable pub skip_trailing_bytes : Reader ℕ
skip_trailing_bytes r = ok (r.end - r.start, record r { start = r.end })

-- The slice `whole[start..start + prefix_size]` panics past the end of `whole`.
unfoldable pub read_bytes : ℕ → Reader Bytes
unfolding len
read_bytes prefix_size r =
    if ltb (len r) prefix_size
    then err format_error
    else if leb (r.start + prefix_size) (length r.whole)
    then ok (take prefix_size (drop r.start r.whole), record r { start = r.start + prefix_size })
    else panic

-- `bytes[0]`
unfoldable pub first : Bytes → Reader ℕ
first [] r = panic
first (b ∷ bs) r = ok (b, r)

unfoldable pub read_u8 : Reader ℕ
unfolding read_bytes first
read_u8 = do bytes ← read_bytes 1; first bytes

unfoldable pub read_u8x32 : Reader Bytes
unfolding read_bytes
read_u8x32 = read_bytes 32

unfoldable pub read_u8x64 : Reader Bytes
unfolding read_bytes
read_u8x64 = read_bytes 64

-- A compressed point is its 32 bytes.
unfoldable pub read_point : Reader Bytes
unfolding read_u8x32
read_point = read_u8x32

-- `from_canonical_bytes` is curve25519-dalek's.
unfoldable pub read_scalar : {Scalar : Type 0} → (Bytes → Option Scalar) → Reader Scalar
unfolding read_u8x32
read_scalar from_canonical_bytes = do
  buf ← read_u8x32
  elim (from_canonical_bytes buf) [ none ↦ fail format_error | some s ↦ pure s ]

module _ ⦃le : LittleEndian⦄ where
  unfoldable pub read_u32 : Reader ℕ
  unfolding read_bytes
  read_u32 = do bytes ← read_bytes 4; pure (le.read_u32 bytes)

  unfoldable pub read_u64 : Reader ℕ
  unfolding read_bytes
  read_u64 = do bytes ← read_bytes 8; pure (le.read_u64 bytes)

  unfoldable pub read_size : Reader ℕ
  unfolding read_u32
  read_size = do n ← read_u32; pure n

  unfoldable pub write_u32 : ℕ → Bytes → Bytes
  write_u32 x target = target ++ le.write_u32 x

  unfoldable pub write_u64 : ℕ → Bytes → Bytes
  write_u64 x target = target ++ le.write_u64 x

  -- `x as u32` cuts a `usize` to 32 bits.
  unfoldable pub write_size : ℕ → Bytes → Bytes
  unfolding write_u32
  write_size x target = write_u32 (x % 2 ^ 32) target

unfoldable pub write_u8 : ℕ → Bytes → Bytes
write_u8 x target = target ++ x ∷ []

unfoldable pub write_bytes : Bytes → Bytes → Bytes
write_bytes x target = target ++ x

unfoldable pub write_point : Bytes → Bytes → Bytes
unfolding write_bytes
write_point x target = write_bytes x target

-- `trait Encodable`; `encode_to_vec` starts from an empty buffer.
pub record Encodable (A : Type 0) : Type 0 where
  pub encode : A → Bytes → Bytes
  pub serialized_length : A → ℕ

unfoldable pub encode_to_vec : {A : Type 0} ⦃e : Encodable A⦄ → A → Bytes
encode_to_vec ⦃e⦄ x = e.encode x []
