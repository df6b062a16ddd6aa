-- ===== src/Verifier/Endless.antt =====
-- A program that the machine of zkvm/src/vm.rs never ends: a call takes its program from a contract
-- of which the stack keeps the string, so that the program calls itself again.
use native.Mathlib.Decide.{ℕ_discrete}
use zioncoin_poc.Prelude.{
  ℕ, zero, suc, Bool, ◌≡◌, refl, ◌∙◌, Option, List, [], ◌∷◌, ◌++◌, replicate,
}
use zioncoin_poc.Prelude.Bytes.{Bytes}
use zioncoin_poc.Prelude.Result.{stuck}
use zioncoin_poc.External.Samples.{
  le_sample, merlin_sample, scalars_sample, r1cs_sample, curve_sample, field_sample, cs_sample,
  gens_sample, system_sample, r1cs_verifier_sample,
}
use zioncoin_poc.Encoding.{parse, read_u8, read_size, read_point, write_u8, write_size, write_point}
use zioncoin_poc.Tx.{Tx, TxEntry}
use zioncoin_poc.Items.{
  Bytes32, VmString, Predicate, Contract, Payload, PortableItem, ProgramItem, Instruction,
}
use zioncoin_poc.Items.Opcodes.{to_u8, from_u8}
use zioncoin_poc.Items.Encode.{
  encode_instruction, encode_contract, encode_payload, payload_count, predicate_to_point,
  string_length,
}
use zioncoin_poc.Items.Decode.{
  read_array, read_point_array, to_array, check_count, decode_contract, decode_payload,
  decode_portable, decode_tagged, decode_program,
}
use zioncoin_poc.Items.Ids.{zkvm_contracts, contract_id}
use zioncoin_poc.Items.Parse.{parse_instruction, parse_opcode, parse_operands}
use zioncoin_poc.Spacesuit.Gadget.{spacesuit_cloak}
use zioncoin_poc.Stack.{Item}
use zioncoin_poc.Taproot.Codec.{decode_callproof}
use zioncoin_poc.Vm.{Vm}
use zioncoin_poc.Vm.Arithmetic
use zioncoin_poc.Vm.Calls
use zioncoin_poc.Vm.Contracts
use zioncoin_poc.Vm.Loops.{run_loop-fewer}
use zioncoin_poc.Vm.Steps
use zioncoin_poc.Verifier.{
  VerifierState, VerifierRun, new_verifier_run, verifier_delegate, verifier_vm, verify_tx,
  verifier_next, remember_key, defer, verifier_new_run,
}

abbrev sixes : Bytes32
sixes = record { bytes32 = replicate 32 6; is_32 = refl }

abbrev code : List Instruction → Bytes
code [] = []
code (i ∷ instrs) = encode_instruction i [] ++ code instrs

abbrev held : Payload → VmString
held payload =
    VmString.opaque_bytes
      (encode_contract (Contract.contract_of (Predicate.opaque_point sixes) payload sixes) [])

-- A contract to call, and below it one that holds the program
abbrev target : VmString
target = held Payload.no_items

-- `dup 1; input; push proof; dup 2; input; signtx; call`
abbrev again : Bytes
again = code (
    Instruction.dup 1
    ∷ Instruction.input
    ∷ Instruction.push (VmString.opaque_bytes (replicate 32 6 ++ 1 ∷ 0 ∷ 0 ∷ 0 ∷ []))
    ∷ Instruction.dup 2
    ∷ Instruction.input
    ∷ Instruction.signtx
    ∷ Instruction.call
    ∷ [])

abbrev holder : VmString
holder = held (
    Payload.item_then (PortableItem.portable_program (ProgramItem.bytecode again)) Payload.no_items)

-- The machine with the two strings, at the start of the program
abbrev at_start : VerifierState → List VerifierRun → List TxEntry → Option Bytes32 → Vm
at_start s runs log anchor = record {
  mintime_ms = 0;
  maxtime_ms = 9;
  extension = Bool.false;
  last_anchor = anchor;
  stack = Item.string holder ∷ Item.string target ∷ [];
  state = s;
  current_run = new_verifier_run again;
  run_stack = runs;
  txlog = log;
}

abbrev seven : ℕ → ℕ
seven n = suc (suc (suc (suc (suc (suc (suc n))))))

-- `push target; push holder`, and then the program
abbrev endless : Tx
endless = record {
  header = record { version = 1; mintime_ms = 0; maxtime_ms = 9 };
  program = code (Instruction.push target ∷ Instruction.push holder ∷ []) ++ again;
  signature = record { s = 0; nonce = replicate 32 3 };
  proof = [];
}

-- With seven units of fuel, after `spare` ones, the loop comes to the start of the program.
record Lap (spare : ℕ → ℕ) (vm : Vm) : Type 0 where
  s : VerifierState
  runs : List VerifierRun
  log : List TxEntry
  anchor : Option Bytes32
  goes_on :
      (n : ℕ) → Steps.run_loop (seven (spare n)) vm ≡ Steps.run_loop n (at_start s runs log anchor)

next-Lap :
    (s : VerifierState) (runs : List VerifierRun) (log : List TxEntry) (anchor : Option Bytes32)
    → Lap (λ n. n) (at_start s runs log anchor)
unfolding verify_tx Steps.run_loop Steps.step Steps.execute verifier_next parse parse_instruction
    parse_opcode parse_operands read_u8 read_size read_point read_array read_point_array to_array
    from_u8 to_u8 check_count decode_contract decode_payload encode_payload payload_count
    predicate_to_point write_u8 write_size write_point string_length Arithmetic.pushdata
    Arithmetic.dup Contracts.input Contracts.signtx Calls.call contract_id remember_key ℕ_discrete
    decode_portable decode_tagged decode_program decode_callproof defer verifier_new_run
next-Lap s runs log anchor = record { s = _; runs = _; log = _; anchor = _; goes_on = λ n. refl }

first-Lap : Lap (λ n. suc (suc n)) (verifier_vm endless)
unfolding verify_tx Steps.run_loop Steps.step Steps.execute verifier_next parse parse_instruction
    parse_opcode parse_operands read_u8 read_size read_point read_array read_point_array to_array
    from_u8 to_u8 check_count decode_contract decode_payload encode_payload payload_count
    predicate_to_point write_u8 write_size write_point string_length Arithmetic.pushdata
    Arithmetic.dup Contracts.input Contracts.signtx Calls.call contract_id remember_key ℕ_discrete
    decode_portable decode_tagged decode_program decode_callproof defer verifier_new_run
first-Lap = record { s = _; runs = _; log = _; anchor = _; goes_on = λ n. refl }

less_seven :
    (n : ℕ) (vm : Vm) → Steps.run_loop (seven n) vm ≡ stuck → Steps.run_loop (suc n) vm ≡ stuck
less_seven n vm e =
    let fewer : (k : ℕ) → Steps.run_loop (suc k) vm ≡ stuck → Steps.run_loop k vm ≡ stuck =
      λ k. run_loop-fewer k vm in
    fewer _ (fewer _ (fewer _ (fewer _ (fewer _ (fewer _ e)))))

stays_stuck :
    (n : ℕ) (s : VerifierState) (runs : List VerifierRun) (log : List TxEntry)
    (anchor : Option Bytes32)
    → Steps.run_loop n (at_start s runs log anchor) ≡ stuck
unfolding Steps.run_loop
stays_stuck zero s runs log anchor = refl
stays_stuck (suc n) s runs log anchor =
    let l = next-Lap s runs log anchor in
    less_seven n (at_start s runs log anchor)
      (l.goes_on n ∙ stays_stuck n l.s l.runs l.log l.anchor)

run-stuck : (n : ℕ) (vm : Vm) → Steps.run_loop n vm ≡ stuck → Steps.run n vm ≡ stuck
unfolding Steps.run
run-stuck n vm e = rw (Steps.run, e)

-- No fuel is enough for this transaction.
endless-verify_tx :
    (n : ℕ) (factors : ℕ → scalars_sample.Scalar) → verify_tx n factors endless ≡ stuck
unfolding verify_tx
endless-verify_tx n factors =
    let l = first-Lap in
    let e : Steps.run_loop (seven (suc (suc n))) (verifier_vm endless) ≡ stuck =
      l.goes_on n ∙ stays_stuck n l.s l.runs l.log l.anchor in
    let vm = verifier_vm endless in
    let enough : Steps.run_loop n vm ≡ stuck = run_loop-fewer n vm (
      run_loop-fewer (suc n) vm
        (run_loop-fewer (suc (suc n)) vm (less_seven (suc (suc n)) vm e))) in
    let ran : Steps.run n vm ≡ stuck = run-stuck n vm enough in rw (verify_tx, ran)
