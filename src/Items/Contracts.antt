-- ===== src/Items/Contracts.antt =====
-- A contract is decoded from its encoding to what the verifier sees of it.
use zioncoin_poc.Prelude.{
  ℕ, ◌%◌, ◌^◌, ◌≤◌, ◌<◌, ◌≡◌, sym, ap, ◌∙◌, [], ◌∷◌, ◌++◌, arith, append_assoc, length,
}
use zioncoin_poc.Prelude.Bytes.{Bytes}
use zioncoin_poc.External.{LittleEndian, Scalars, Curve}
use zioncoin_poc.Encoding.{write_u8, write_u32, write_bytes, write_point}
use zioncoin_poc.Encoding.Reads.{Reads, Reads-bind, Reads-pure, Reads-read_u8, Reads-read_size}
use zioncoin_poc.Items.{
  Bytes32, Commitment, VmString, ProgramItem, Predicate, Contract, Payload, PortableItem,
}
use zioncoin_poc.Items.Encode.{
  as_u32, string_type, prog_type, value_type, commitment_to_point, predicate_to_point,
  string_length, program_item_length, payload_length, portable_length, payload_count, encode_string,
  encode_program_item, encode_contract, encode_payload, encode_portable,
}
use zioncoin_poc.Items.Decode.{
  decode_string, decode_program, decode_value, decode_tagged, decode_portable, decode_payload,
  decode_contract,
}
use zioncoin_poc.Items.Lengths.{string-Appends, program_item-Appends, payload-Appends}
use zioncoin_poc.Items.Pieces.{
  Reads-last, Reads-read_array, Reads-read_point_array, Reads-check_count, Reads-sized,
}

module _ ⦃scalars : Scalars⦄ ⦃curve : Curve⦄ where
  -- Lengths and the count of items fit in 32 bits.
  unfoldable pub PortableFits : PortableItem → Type 0
  PortableFits (PortableItem.string_item d) = string_length d < 2 ^ 32
  PortableFits (PortableItem.portable_program p) = program_item_length p < 2 ^ 32
  PortableFits (PortableItem.value_item v) = Unit {0}

  unfoldable pub PayloadFits : Payload → Type 0
  PayloadFits Payload.no_items = Unit {0}
  PayloadFits (Payload.item_then item payload) = PortableFits item × PayloadFits payload

  unfoldable pub ContractFits : Contract → Type 0
  ContractFits (Contract.contract_of predicate payload anchor) =
      (payload_count payload < 2 ^ 32) × PayloadFits payload

  portable_length_pos : (item : PortableItem) → 1 ≤ portable_length item
  unfolding portable_length
  portable_length_pos (PortableItem.string_item d) = omega arith
  portable_length_pos (PortableItem.portable_program p) = omega arith
  portable_length_pos (PortableItem.value_item v) = omega arith

  payload_count-le-length : (p : Payload) → payload_count p ≤ payload_length p
  unfolding payload_count payload_length
  payload_count-le-length Payload.no_items = omega arith
  payload_count-le-length (Payload.item_then item payload) =
      omega (arith, portable_length_pos item, payload_count-le-length payload)

  module _ ⦃le : LittleEndian⦄ where
    -- What the verifier sees of a contract: bytes and points
    unfoldable pub portable_view : PortableItem → PortableItem
    portable_view (PortableItem.string_item d) =
        PortableItem.string_item (VmString.opaque_bytes (encode_string d []))
    portable_view (PortableItem.portable_program p) =
        PortableItem.portable_program (ProgramItem.bytecode (encode_program_item p []))
    portable_view (PortableItem.value_item v) = PortableItem.value_item (record {
      qty = Commitment.closed (commitment_to_point v.qty);
      flv = Commitment.closed (commitment_to_point v.flv);
    })

    unfoldable pub payload_view : Payload → Payload
    payload_view Payload.no_items = Payload.no_items
    payload_view (Payload.item_then item payload) =
        Payload.item_then (portable_view item) (payload_view payload)

    unfoldable pub contract_view : Contract → Contract
    contract_view (Contract.contract_of p payload anchor) =
        Contract.contract_of (Predicate.opaque_point (predicate_to_point p)) (payload_view payload)
          anchor

    Reads-tag :
        (tag : ℕ) {xs : Bytes} {item : PortableItem}
        → Reads (decode_tagged tag) xs item
        → Reads decode_portable (tag ∷ xs) item
    unfolding decode_portable
    Reads-tag tag h = Reads-bind decode_tagged (Reads-read_u8 tag) h

    Reads-decode_portable :
        (item : PortableItem)
        → PortableFits item
        → Reads decode_portable (encode_portable item []) (portable_view item)
    unfolding encode_portable portable_view PortableFits write_u8 write_u32 write_point write_bytes
        decode_tagged decode_string decode_program decode_value
    Reads-decode_portable (PortableItem.string_item d) fits =
        let a = string-Appends d in
        rw (a.appends (string_type ∷ le.write_u32 (as_u32 (string_length d))), a.appends [])
          (Reads-tag string_type
            (Reads-sized (λ b. PortableItem.string_item (VmString.opaque_bytes b)) a fits))
    Reads-decode_portable (PortableItem.portable_program p) fits =
        let a = program_item-Appends p in
        rw (a.appends (prog_type ∷ le.write_u32 (as_u32 (program_item_length p))), a.appends [])
          (Reads-tag prog_type
            (Reads-sized (λ b. PortableItem.portable_program (ProgramItem.bytecode b)) a fits))
    Reads-decode_portable (PortableItem.value_item v) fits = Reads-tag value_type (
        Reads-bind _ (Reads-read_point_array (commitment_to_point v.qty))
          (Reads-last _ (Reads-read_point_array (commitment_to_point v.flv)) (Reads-pure _)))

    Reads-decode_payload :
        (p : Payload)
        → PayloadFits p
        → Reads (decode_payload (payload_count p)) (encode_payload p []) (payload_view p)
    unfolding encode_payload payload_view PayloadFits decode_payload payload_count
    Reads-decode_payload Payload.no_items fits = Reads-pure Payload.no_items
    Reads-decode_payload (Payload.item_then item payload) fits =
        let a = payload-Appends payload in
        let whole : encode_payload payload (encode_portable item [])
            ≡ encode_portable item [] ++ encode_payload payload [] =
          a.appends (encode_portable item [])
          ∙ ap (λ x. encode_portable item [] ++ x) (sym (a.appends [])) in
        rw whole (
          Reads-bind _ (Reads-decode_portable item fits.0)
            (Reads-last _ (Reads-decode_payload payload fits.1) (Reads-pure _)))

    -- The fields of a contract in the order they are read.
    pub encode_contract_lem :
        (p : Predicate) (payload : Payload) (anchor : Bytes32)
        → encode_contract (Contract.contract_of p payload anchor) []
          ≡ anchor.bytes32
            ++ ((predicate_to_point p).bytes32
                ++ (le.write_u32 (as_u32 (payload_count payload)) ++ encode_payload payload []))
    unfolding encode_contract write_u32 write_point write_bytes
    encode_contract_lem p payload anchor =
        let a = payload-Appends payload in
        let before =
          (anchor.bytes32 ++ (predicate_to_point p).bytes32)
          ++ le.write_u32 (as_u32 (payload_count payload)) in
        a.appends before
        ∙ ap (λ x. before ++ x) (sym (a.appends []))
        ∙ append_assoc (anchor.bytes32 ++ (predicate_to_point p).bytes32)
            (le.write_u32 (as_u32 (payload_count payload))) (encode_payload payload [])
        ∙ append_assoc anchor.bytes32 (predicate_to_point p).bytes32 _

    length-encode_payload : (p : Payload) → length (encode_payload p []) ≡ payload_length p
    length-encode_payload p = let a = payload-Appends p in ap length (a.appends []) ∙ a.count

    -- A contract whose lengths fit in 32 bits is decoded from its encoding to what the verifier sees
    -- of it.
    pub decode_contract-encode_contract :
        (c : Contract)
        → ContractFits c
        → Reads decode_contract (encode_contract c []) (contract_view c)
    unfolding contract_view ContractFits decode_contract
    decode_contract-encode_contract (Contract.contract_of p payload anchor) fits =
        let k = payload_count payload in
        let small : k % 2 ^ 32 ≡ k = omega (arith, fits.0) in
        let enough : k ≤ length (encode_payload payload []) =
          omega (arith, payload_count-le-length payload, length-encode_payload payload) in
        rw (encode_contract_lem p payload anchor, small)
          (Reads-bind _ (Reads-read_array anchor) (
            Reads-bind _ (Reads-read_point_array (predicate_to_point p)) (
              Reads-bind _ (Reads-read_size k fits.0) (
                Reads-check_count k _ enough
                  (Reads-last _ (Reads-decode_payload payload fits.1) (Reads-pure _))))))
