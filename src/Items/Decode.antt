-- ===== src/Items/Decode.antt =====
-- zkvm/src/contract.rs: `Contract::decode` and `PortableItem::decode`.
use native.Mathlib.Decide.{ℕ_discrete}
use zioncoin_poc.Prelude.{ℕ, zero, suc, ◌==◌, ltb, if◌then◌else◌, length}
use zioncoin_poc.Prelude.Result.{ok, err, panic}
use zioncoin_poc.Prelude.Bytes.{Bytes}
use zioncoin_poc.External.{LittleEndian, Scalars, Curve}
use zioncoin_poc.Errors.{format_error}
use zioncoin_poc.Encoding.{
  Reader, ◌>>=◌, ◌>>◌, pure, fail, len, read_u8, read_size, read_bytes, read_u8x32, read_point,
}
use zioncoin_poc.Items.{
  Bytes32, Commitment, VmString, ProgramItem, Predicate, Contract, Payload, PortableItem,
}
use zioncoin_poc.Items.Encode.{string_type, prog_type, value_type}

-- `buf[..].copy_from_slice(slice)` into an array of 32 bytes, which panics at any other length.
unfoldable pub to_array : Bytes → Reader Bytes32
to_array bytes = elim (ℕ_discrete (length bytes) 32) [
  | yes e ↦ pure (record { bytes32 = bytes; is_32 = e })
  | no ne ↦ λ r. panic
]

unfoldable pub read_array : Reader Bytes32
read_array = do bytes ← read_u8x32; to_array bytes

unfoldable pub read_point_array : Reader Bytes32
read_point_array = do bytes ← read_point; to_array bytes

-- The check that a prefix of `k` items can be true
unfoldable pub check_count : ℕ → Reader (Unit {0})
check_count k r = if ltb (len r) k then err format_error else ok (tt, r)

module _ ⦃scalars : Scalars⦄ ⦃curve : Curve⦄ ⦃le : LittleEndian⦄ where
  unfoldable pub decode_string : Reader PortableItem
  decode_string = do
    n ← read_size
    bytes ← read_bytes n
    pure (PortableItem.string_item (VmString.opaque_bytes bytes))

  unfoldable pub decode_program : Reader PortableItem
  decode_program = do
    n ← read_size
    bytes ← read_bytes n
    pure (PortableItem.portable_program (ProgramItem.bytecode bytes))

  unfoldable pub decode_value : Reader PortableItem
  decode_value = do
    qty ← read_point_array
    flv ← read_point_array
    pure (
        PortableItem.value_item
          (record { qty = Commitment.closed qty; flv = Commitment.closed flv }))

  unfoldable pub decode_tagged : ℕ → Reader PortableItem
  decode_tagged tag =
      if tag == string_type
      then decode_string
      else if tag == prog_type
      then decode_program
      else if tag == value_type
      then decode_value
      else fail format_error

  -- `PortableItem::decode`
  unfoldable pub decode_portable : Reader PortableItem
  decode_portable = do tag ← read_u8; decode_tagged tag

  -- The loop of `Contract::decode`
  unfoldable pub decode_payload : ℕ → Reader Payload
  decode_payload zero = pure Payload.no_items
  decode_payload (suc k) = do
    item ← decode_portable
    payload ← decode_payload k
    pure (Payload.item_then item payload)

  -- `Contract::decode`
  unfoldable pub decode_contract : Reader Contract
  decode_contract = do
    anchor ← read_array
    predicate ← read_point_array
    k ← read_size
    check_count k
    payload ← decode_payload k
    pure (Contract.contract_of (Predicate.opaque_point predicate) payload anchor)
