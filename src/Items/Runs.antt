-- ===== src/Items/Runs.antt =====
-- Runs of the encoding of instructions and contracts, with sample points.
use zioncoin_poc.Prelude.{◌+◌, ◌≡◌, refl, [], ◌∷◌, arith, length, replicate}
use zioncoin_poc.External.Samples.{le_sample, merlin_sample, scalars_sample, curve_sample}
use zioncoin_poc.Encoding.{SliceReader, new}
use zioncoin_poc.Encoding.Reads.{Reads}
use zioncoin_poc.Encoding.Safe.{Safe, new-IsValid}
use zioncoin_poc.Items.{
  Bytes32, pos, ScalarWitness, Commitment, Value, VmString, ProgramItem, Program, Instruction,
  Predicate, Contract, Payload, PortableItem,
}
use zioncoin_poc.Items.Encode.{
  encode_instruction, encode_contract, instruction_length, contract_length, string_length,
  program_item_length, payload_count,
}
use zioncoin_poc.Items.Encode.{
  to_scalar, integer_to_scalar, predicate_to_point, commitment_to_point,
}
use zioncoin_poc.Stack.{to_predicate, to_commitment, to_output, string_to_scalar}
use zioncoin_poc.Stack.Casts.{as_bytes, string_casts}
use zioncoin_poc.Prelude.Result.{ok}
use zioncoin_poc.Items.Parse.{parse_instruction}
use zioncoin_poc.Items.Decode.{decode_contract}
use zioncoin_poc.Items.Lengths.{length-encode_instruction, length-encode_contract}
use zioncoin_poc.Items.RoundTrip.{
  InstructionFits, verifier_view, parse_instruction-encode_instruction,
}
use zioncoin_poc.Items.Safe.{parse_instruction-Safe}
use zioncoin_poc.Items.Contracts.{
  PortableFits, PayloadFits, ContractFits, contract_view, decode_contract-encode_contract,
}
use zioncoin_poc.Items.Ids.{contract_id, contract_id-contract_view}

abbrev ones : Bytes32
ones = record { bytes32 = replicate 32 1; is_32 = refl }

-- The program `push 5; drop`, as the prover holds it, inside a `program` instruction.
abbrev push_program : Instruction
push_program = Instruction.program_item (
    ProgramItem.program (
      Program.then (Instruction.push (VmString.scalar_witness (ScalarWitness.integer (pos 5))))
        (Program.then Instruction.drop Program.done)))

push_program-InstructionFits : InstructionFits push_program
unfolding InstructionFits program_item_length
push_program-InstructionFits = omega arith

parse_instruction-encode_instruction_example :
    Reads parse_instruction (encode_instruction push_program []) (verifier_view push_program)
parse_instruction-encode_instruction_example =
    parse_instruction-encode_instruction push_program push_program-InstructionFits

length-encode_instruction_example :
    length (encode_instruction push_program (7 ∷ [])) ≡ 1 + instruction_length push_program
length-encode_instruction_example = length-encode_instruction push_program (7 ∷ [])

-- A push that announces more bytes than there are
abbrev short_push : SliceReader
short_push = new (0 ∷ 9 ∷ 0 ∷ 0 ∷ 0 ∷ 1 ∷ [])

parse_instruction-Safe_example : Safe short_push (parse_instruction short_push)
parse_instruction-Safe_example =
    parse_instruction-Safe short_push (new-IsValid (0 ∷ 9 ∷ 0 ∷ 0 ∷ 0 ∷ 1 ∷ []))

abbrev some_value : Value
some_value = record {
  qty = Commitment.open_with (record { value = ScalarWitness.integer (pos 3); blinding = 4 });
  flv = Commitment.closed ones;
}

abbrev some_contract : Contract
some_contract =
    Contract.contract_of (Predicate.opaque_point ones)
      (Payload.item_then
        (PortableItem.string_item (VmString.predicate (Predicate.opaque_point ones)))
        (Payload.item_then (PortableItem.value_item some_value) Payload.no_items))
      ones

some_contract-ContractFits : ContractFits some_contract
unfolding ContractFits PayloadFits PortableFits payload_count string_length
some_contract-ContractFits = (omega arith, (omega arith, (tt, tt)))

decode_contract-encode_contract_example :
    Reads decode_contract (encode_contract some_contract []) (contract_view some_contract)
decode_contract-encode_contract_example =
    decode_contract-encode_contract some_contract some_contract-ContractFits

length-encode_contract_example :
    length (encode_contract some_contract []) ≡ 0 + contract_length some_contract
length-encode_contract_example = length-encode_contract some_contract []

contract_id-contract_view_example :
    contract_id (contract_view some_contract) ≡ contract_id some_contract
contract_id-contract_view_example = contract_id-contract_view some_contract

string_casts_example :
    (to_predicate (as_bytes (VmString.predicate (Predicate.opaque_point ones)))
      ≡ ok (Predicate.opaque_point ones))
    × (to_commitment (as_bytes (VmString.commitment some_value.qty))
        ≡ ok (Commitment.closed (commitment_to_point some_value.qty)))
    × (string_to_scalar (as_bytes (VmString.scalar_witness (ScalarWitness.integer (pos 3))))
        ≡ ok (ScalarWitness.scalar 3))
    × (to_output (as_bytes (VmString.output_contract some_contract))
        ≡ ok (contract_view some_contract))
unfolding to_scalar integer_to_scalar predicate_to_point
string_casts_example =
    string_casts (Predicate.opaque_point ones) some_value.qty (ScalarWitness.integer (pos 3))
      some_contract some_contract-ContractFits
