-- ===== src/Verifier/Runs.antt =====
-- Runs of the machine and the verifier on a transaction that spends one contract and is signed for it.
use mathlib.Core.List.{Permᴰ}
use native.Mathlib.Decide.{ℕ_discrete}
use zioncoin_poc.Prelude.{
  ℕ, arith, ◌≡◌, refl, ◌≤◌, Option, none, true, length, List, [], ◌∷◌, ◌++◌, replicate,
}
use zioncoin_poc.Prelude.Bytes.{Bytes}
use zioncoin_poc.Prelude.Result.{Result, ok, panic}
use zioncoin_poc.External.Samples.{
  le_sample, merlin_sample, scalars_sample, r1cs_sample, curve_sample, field_sample, cs_sample,
  gens_sample, system_sample, r1cs_verifier_sample,
}
use zioncoin_poc.Errors.{VmError}
use zioncoin_poc.Tx.{Tx, VerifiedTx, TxEntry, header, input, from_log}
use zioncoin_poc.Items.{Bytes32, ProgramItem, VmString, Predicate, Contract, Payload, Instruction}
use zioncoin_poc.Items.Encode.{
  encode_instruction, encode_payload, payload_count, predicate_to_point, string_length,
}
use zioncoin_poc.Items.Ids.{zkvm_contracts, contract_id}
use zioncoin_poc.Vm.{Vm}
use zioncoin_poc.Vm.Arithmetic
use zioncoin_poc.Vm.Contracts
use zioncoin_poc.Encoding.{parse, read_u8, read_size, read_point, write_u8, write_size, write_point}
use zioncoin_poc.Stack.{Item}
use zioncoin_poc.Items.Opcodes.{to_u8, from_u8}
use zioncoin_poc.Items.Parse.{parse_instruction, parse_opcode, parse_operands}
use zioncoin_poc.Items.Decode.{
  decode_contract, check_count, decode_payload, read_array, read_point_array, to_array,
}
use zioncoin_poc.Tx.{from_log}
use zioncoin_poc.Merkle.Power.{next_power_of_two}
use zioncoin_poc.Vm.Steps
use zioncoin_poc.Vm.Executed.{is_call}
use zioncoin_poc.Spacesuit.Mix.{k_mix}
use zioncoin_poc.Spacesuit.Gadget.{cloak, spacesuit_cloak}
use zioncoin_poc.Vm.Empty.{execute_cloak-panics}
use zioncoin_poc.Vm.Linear.{linear, execute-linear}
use zioncoin_poc.Vm.Inputs.{has_input, run_logs_input}
use zioncoin_poc.Verifier.Verified.{Checked, Logged, verify_tx-Checked}
use zioncoin_poc.Verifier.Termination.{LocalSteps, more, stop, LocalSteps-le-length}
use zioncoin_poc.Verifier.{
  VerifierState, verifier_delegate, verifier_vm, verify_tx, remember_key, verifier_next,
}

abbrev fours : Bytes32
fours = record { bytes32 = replicate 32 4; is_32 = refl }

-- A contract without a payload, under the key 4
abbrev pub coin : Contract
coin = Contract.contract_of (Predicate.opaque_point fours) Payload.no_items fours

-- `push coin; input; signtx`
abbrev spending : Bytes
spending =
    encode_instruction (Instruction.push (VmString.output_contract coin)) []
    ++ encode_instruction Instruction.input []
    ++ encode_instruction Instruction.signtx []

abbrev pub spend : Tx
spend = record {
  header = record { version = 1; mintime_ms = 0; maxtime_ms = 9 };
  program = spending;
  signature = record { s = 1; nonce = replicate 32 3 };
  proof = [];
}

-- The factors of the batch
abbrev draws : ℕ → scalars_sample.Scalar
draws i = 1

abbrev result : Result VmError VerifiedTx
result = verify_tx 5 draws spend

abbrev spend_verified : VerifiedTx
spend_verified =
    let log = header spend.header ∷ input (contract_id coin) ∷ [] in
    record { header = spend.header; id = from_log log; log = log }

spend-accepted : verify_tx 5 draws spend ≡ ok spend_verified
unfolding verify_tx Steps.step Steps.execute verifier_next parse parse_instruction parse_opcode
    parse_operands read_u8 read_size read_point read_array read_point_array to_array from_u8 to_u8
    check_count decode_contract decode_payload encode_payload payload_count predicate_to_point
    write_u8 write_size write_point string_length Arithmetic.pushdata Contracts.input
    Contracts.signtx contract_id remember_key ℕ_discrete next_power_of_two
spend-accepted = refl

verify_tx-Checked_example : Checked 5 draws spend spend_verified × Logged spend spend_verified
verify_tx-Checked_example = verify_tx-Checked 5 draws spend spend_verified spend-accepted

spend_state : VerifierState
spend_state = verify_tx-Checked_example.0.state

run_logs_input_example :
    (spend_verified.id ≡ from_log spend_verified.log)
    × ((entries : List TxEntry) × (spend_verified.log ≡ (verifier_vm spend).txlog ++ entries)
        × (has_input entries ≡ true))
unfolding verifier_vm spend_state
run_logs_input_example =
    run_logs_input 5 (verifier_vm spend) spend_verified.id spend_verified.log spend_state refl
      verify_tx-Checked_example.0.ran

abbrev pub ok_value : {E A : Type 0} → A → Result E A → A
ok_value other (ok a) = a
ok_value other _ = other

-- The three steps of the program
abbrev next_of : Vm → Option Instruction × Vm
next_of vm = ok_value (none, vm) (Steps.next_instruction vm)

abbrev stepped : Vm → Vm
stepped vm = (ok_value (true, vm) (Steps.step_with (next_of vm).0 (next_of vm).1)).1

abbrev second : Vm
second = stepped (verifier_vm spend)

abbrev third : Vm
third = stepped second

abbrev last : Vm
last = stepped third

steps_of_spend : LocalSteps 3 (verifier_vm spend)
unfolding verify_tx Steps.step Steps.execute verifier_next parse parse_instruction parse_opcode
    parse_operands read_u8 read_size read_point read_array read_point_array to_array from_u8 to_u8
    check_count decode_contract decode_payload encode_payload payload_count predicate_to_point
    write_u8 write_size write_point string_length Arithmetic.pushdata Contracts.input
    Contracts.signtx contract_id remember_key ℕ_discrete next_power_of_two Steps.next_instruction
    Steps.step_with is_call
steps_of_spend =
    more (next_of (verifier_vm spend)).0 (next_of (verifier_vm spend)).1 second refl refl refl (
      more (next_of second).0 (next_of second).1 third refl refl refl
        (more (next_of third).0 (next_of third).1 last refl refl refl stop))

LocalSteps-le-length_example : 3 ≤ length spend.program
LocalSteps-le-length_example = LocalSteps-le-length spend 3 steps_of_spend

-- A contract is rolled to the top, over a string.
abbrev carrying : Vm
carrying = record (verifier_vm spend) {
  stack =
      Item.string (VmString.opaque_bytes [])
      ∷ Item.contract coin
      ∷ Item.program (ProgramItem.bytecode [])
      ∷ [];
}

abbrev rolled : Vm
rolled = record (verifier_vm spend) {
  stack =
      Item.contract coin
      ∷ Item.string (VmString.opaque_bytes [])
      ∷ Item.program (ProgramItem.bytecode [])
      ∷ [];
}

rolls : Steps.execute (Instruction.roll 1) carrying ≡ ok (tt, rolled)
unfolding Steps.execute Arithmetic.roll
rolls = refl

execute-linear_example : Permᴰ (linear rolled.stack) (linear carrying.stack)
execute-linear_example = execute-linear (Instruction.roll 1) carrying (tt, rolled) refl rolls

-- A transaction of which the program is `cloak 0 0`
abbrev cloaking : Tx
cloaking = record spend { program = encode_instruction (Instruction.cloak 0 0) [] }

execute_cloak-panics_example :
    (Contracts.cloak_counts 0 0 (verifier_vm cloaking) ≡ ok (tt, verifier_vm cloaking))
    × (Steps.execute (Instruction.cloak 0 0) (verifier_vm cloaking) ≡ panic)
unfolding verifier_vm
execute_cloak-panics_example = execute_cloak-panics (verifier_vm cloaking) (omega arith)

cloaking-panics : verify_tx 1 draws cloaking ≡ panic
unfolding verify_tx Steps.step Steps.execute verifier_next parse parse_instruction parse_opcode
    parse_operands read_u8 read_size from_u8 to_u8 write_u8 write_size Contracts.cloak cloak k_mix
    encode_instruction
cloaking-panics = refl
