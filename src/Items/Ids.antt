-- ===== src/Items/Ids.antt =====
-- zkvm/src/contract.rs: the id of a contract, the anchors, and contracts as the log of a transaction
-- takes them. The id is that of what the verifier sees.
use zioncoin_poc.Prelude.{suc, ◌≡◌, refl, sym, ap, ap₂, ◌∙◌, [], ◌∷◌, ◌++◌, length}
use zioncoin_poc.Prelude.Bytes.{Bytes}
use zioncoin_poc.External.{LittleEndian, Merlin, Scalars, Curve}
use zioncoin_poc.Encoding.{write_u8, write_u32}
use zioncoin_poc.Tx.{ContractId, Contracts}
use zioncoin_poc.Items.{VmString, ProgramItem, Predicate, Contract, Payload, PortableItem}
use zioncoin_poc.Items.Encode.{
  as_u32, string_type, prog_type, commitment_to_point, predicate_to_point, string_length,
  program_item_length, payload_count, encode_string, encode_program_item, encode_contract,
  encode_payload, encode_portable,
}
use zioncoin_poc.Items.Lengths.{string-Appends, program_item-Appends, payload-Appends}
use zioncoin_poc.Items.Contracts.{portable_view, payload_view, contract_view, encode_contract_lem}

module _ ⦃merlin : Merlin⦄ where
  open merlin use {new, append_message, challenge_bytes}

  -- `Anchor::ratchet`
  unfoldable pub ratchet : Bytes → Bytes
  ratchet anchor =
      (challenge_bytes "new" 32 (append_message "old" anchor (new "ZkVM.ratchet-anchor"))).0

  module _ ⦃scalars : Scalars⦄ ⦃curve : Curve⦄ ⦃le : LittleEndian⦄ where
    -- `Contract::id`
    unfoldable pub contract_id : Contract → ContractId
    contract_id c =
        let t = append_message "contract" (encode_contract c []) (new "ZkVM.contractid") in
        record { id_bytes = (challenge_bytes "id" 32 t).0 }

    instance abbrev pub zkvm_contracts : Contracts
    zkvm_contracts = record { Contract = Contract; id = contract_id }

module _ ⦃scalars : Scalars⦄ ⦃curve : Curve⦄ ⦃le : LittleEndian⦄ where
  length-encode_string : (d : VmString) → length (encode_string d []) ≡ string_length d
  length-encode_string d = let a = string-Appends d in ap length (a.appends []) ∙ a.count

  length-encode_program_item :
      (p : ProgramItem) → length (encode_program_item p []) ≡ program_item_length p
  length-encode_program_item p =
      let a = program_item-Appends p in ap length (a.appends []) ∙ a.count

  encode_portable-portable_view :
      (item : PortableItem) → encode_portable (portable_view item) [] ≡ encode_portable item []
  unfolding encode_portable portable_view write_u8 write_u32 string_length commitment_to_point
  encode_portable-portable_view (PortableItem.string_item d) =
      let a = string-Appends d in
      let buf = string_type ∷ le.write_u32 (as_u32 (string_length d)) in
      ap (λ n. (string_type ∷ le.write_u32 (as_u32 n)) ++ encode_string d [])
        (length-encode_string d)
      ∙ ap (λ x. buf ++ x) (a.appends [])
      ∙ sym (a.appends buf)
  encode_portable-portable_view (PortableItem.portable_program p) =
      let a = program_item-Appends p in
      let buf = prog_type ∷ le.write_u32 (as_u32 (program_item_length p)) in
      ap (λ n. (prog_type ∷ le.write_u32 (as_u32 n)) ++ encode_program_item p [])
        (length-encode_program_item p)
      ∙ ap (λ x. buf ++ x) (a.appends [])
      ∙ sym (a.appends buf)
  encode_portable-portable_view (PortableItem.value_item v) = refl

  payload_count-payload_view : (p : Payload) → payload_count (payload_view p) ≡ payload_count p
  unfolding payload_count payload_view
  payload_count-payload_view Payload.no_items = refl
  payload_count-payload_view (Payload.item_then item payload) =
      ap suc (payload_count-payload_view payload)

  -- What is written after an item
  encode_payload-item_then :
      (item : PortableItem) (payload : Payload)
      → encode_payload (Payload.item_then item payload) []
        ≡ encode_portable item [] ++ encode_payload payload []
  unfolding encode_payload
  encode_payload-item_then item payload =
      let a = payload-Appends payload in
      a.appends (encode_portable item [])
      ∙ ap (λ x. encode_portable item [] ++ x) (sym (a.appends []))

  encode_payload-payload_view :
      (p : Payload) → encode_payload (payload_view p) [] ≡ encode_payload p []
  unfolding payload_view
  encode_payload-payload_view Payload.no_items = refl
  encode_payload-payload_view (Payload.item_then item payload) =
      encode_payload-item_then (portable_view item) (payload_view payload)
      ∙ ap₂ (λ x y. x ++ y) (encode_portable-portable_view item)
          (encode_payload-payload_view payload)
      ∙ sym (encode_payload-item_then item payload)

  encode_contract-contract_view :
      (c : Contract) → encode_contract (contract_view c) [] ≡ encode_contract c []
  unfolding contract_view predicate_to_point
  encode_contract-contract_view (Contract.contract_of p payload anchor) =
      encode_contract_lem (Predicate.opaque_point (predicate_to_point p)) (payload_view payload)
        anchor
      ∙ ap₂
          (λ k x.
            anchor.bytes32 ++ ((predicate_to_point p).bytes32 ++ (le.write_u32 (as_u32 k) ++ x)))
          (payload_count-payload_view payload) (encode_payload-payload_view payload)
      ∙ sym (encode_contract_lem p payload anchor)

  -- The id of a contract is the id of what the verifier sees of it.
  pub contract_id-contract_view :
      ⦃merlin : Merlin⦄ → (c : Contract) → contract_id (contract_view c) ≡ contract_id c
  unfolding contract_id
  contract_id-contract_view ⦃merlin⦄ c =
      ap
        (λ x. record {
          id_bytes =
              (merlin.challenge_bytes "id" 32
                (merlin.append_message "contract" x (merlin.new "ZkVM.contractid"))).0;
        })
        (encode_contract-contract_view c)
