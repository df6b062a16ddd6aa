-- ===== src/Items/Encode.antt =====
-- The encoding of the data of a program: `Encodable` for `String`, `ProgramItem`, `Program`,
-- `Instruction`, `Predicate`, `Commitment`, `ScalarWitness`, `Contract` and `PortableItem`, in their
-- files of zkvm/src, and for each the length that it announces.
use zioncoin_poc.Prelude.{ℕ, suc, ◌+◌, ◌%◌, ◌^◌, ◌++◌, length}
use zioncoin_poc.Prelude.Bytes.{Bytes}
use zioncoin_poc.External.{LittleEndian, Scalars, Curve}
use zioncoin_poc.Encoding.{write_u8, write_u32, write_bytes, write_point}
use zioncoin_poc.Items.{
  Bytes32, ℤ, pos, negsuc, ScalarWitness, CommitmentWitness, Commitment, VerificationKey, VmString,
  ProgramItem, Program, Instruction, Predicate, PredicateTree, predicate_tree, Contract, Payload,
  PortableItem,
}
use zioncoin_poc.Items.Opcodes.{Opcode, to_u8}

-- The prefixes of zkvm/src/contract.rs
abbrev pub string_type : ℕ
string_type = 0x00

abbrev pub prog_type : ℕ
prog_type = 0x01

abbrev pub value_type : ℕ
value_type = 0x02

-- `x as u32`
abbrev pub as_u32 : ℕ → ℕ
as_u32 x = x % 2 ^ 32

module _ ⦃scalars : Scalars⦄ ⦃curve : Curve⦄ where
  -- `Into<Scalar> for SignedInteger`
  unfoldable pub integer_to_scalar : ℤ → scalars.Scalar
  integer_to_scalar (pos n) = curve.from_u64 (n % 2 ^ 64)
  integer_to_scalar (negsuc n) = curve.sub curve.zero (curve.from_u64 ((n + 1) % 2 ^ 64))

  -- `ScalarWitness::to_scalar`
  unfoldable pub to_scalar : ScalarWitness → scalars.Scalar
  to_scalar (ScalarWitness.integer i) = integer_to_scalar i
  to_scalar (ScalarWitness.scalar s) = s

  unfoldable pub encode_scalar : ScalarWitness → Bytes → Bytes
  encode_scalar s buf = write_bytes (scalars.as_bytes (to_scalar s)) buf

  -- `CommitmentWitness::to_point`
  unfoldable pub witness_to_point : CommitmentWitness → Bytes32
  witness_to_point w =
      let point = curve.commit (to_scalar w.value) w.blinding in
      record { bytes32 = curve.compress point; is_32 = curve.length-compress point }

  -- `Commitment::to_point`
  unfoldable pub commitment_to_point : Commitment → Bytes32
  commitment_to_point (Commitment.closed x) = x
  commitment_to_point (Commitment.open_with w) = witness_to_point w

  unfoldable pub encode_commitment : Commitment → Bytes → Bytes
  encode_commitment c buf = write_point (commitment_to_point c).bytes32 buf

  unfoldable pub precomputed_key : PredicateTree → VerificationKey
  precomputed_key (predicate_tree ls k blinding_key precomputed adjustment) = precomputed

  -- `Predicate::to_point`
  unfoldable pub predicate_to_point : Predicate → Bytes32
  predicate_to_point (Predicate.opaque_point p) = p
  predicate_to_point (Predicate.key k) = k.precompressed
  predicate_to_point (Predicate.tree d) = (precomputed_key d).precompressed

  unfoldable pub encode_predicate : Predicate → Bytes → Bytes
  encode_predicate p prog = write_point (predicate_to_point p).bytes32 prog

  unfoldable mutual
    pub string_length : VmString → ℕ
    string_length (VmString.opaque_bytes data_bytes) = length data_bytes
    string_length (VmString.predicate p) = 32
    string_length (VmString.commitment c) = 32
    string_length (VmString.scalar_witness s) = 32
    string_length (VmString.output_contract c) = contract_length c

    pub program_item_length : ProgramItem → ℕ
    program_item_length (ProgramItem.program prog) = program_length prog
    program_item_length (ProgramItem.bytecode bytes) = length bytes

    pub program_length : Program → ℕ
    program_length Program.done = 0
    program_length (Program.then i prog) = instruction_length i + program_length prog

    pub instruction_length : Instruction → ℕ
    instruction_length (Instruction.push data_item) = 1 + 4 + string_length data_item
    instruction_length (Instruction.program_item progitem) = 1 + 4 + program_item_length progitem
    instruction_length (Instruction.dup idx) = 1 + 4
    instruction_length (Instruction.roll idx) = 1 + 4
    instruction_length (Instruction.cloak inputs outputs) = 1 + 4 + 4
    instruction_length (Instruction.output k) = 1 + 4
    instruction_length (Instruction.contract k) = 1 + 4
    instruction_length _ = 1

    pub contract_length : Contract → ℕ
    contract_length (Contract.contract_of p payload anchor) = 32 + 32 + 4 + payload_length payload

    pub payload_length : Payload → ℕ
    payload_length Payload.no_items = 0
    payload_length (Payload.item_then item payload) = portable_length item + payload_length payload

    pub portable_length : PortableItem → ℕ
    portable_length (PortableItem.string_item d) = 1 + 4 + string_length d
    portable_length (PortableItem.portable_program p) = 1 + 4 + program_item_length p
    portable_length (PortableItem.value_item v) = 1 + 64

  -- The length of a `Vec`
  unfoldable pub payload_count : Payload → ℕ
  payload_count Payload.no_items = 0
  payload_count (Payload.item_then item payload) = suc (payload_count payload)

  module _ ⦃le : LittleEndian⦄ where
    unfoldable mutual
      pub encode_string : VmString → Bytes → Bytes
      encode_string (VmString.opaque_bytes x) buf = buf ++ x
      encode_string (VmString.predicate p) buf = encode_predicate p buf
      encode_string (VmString.commitment c) buf = encode_commitment c buf
      encode_string (VmString.scalar_witness s) buf = encode_scalar s buf
      encode_string (VmString.output_contract c) buf = encode_contract c buf

      pub encode_program_item : ProgramItem → Bytes → Bytes
      encode_program_item (ProgramItem.program prog) buf = encode_program prog buf
      encode_program_item (ProgramItem.bytecode bytes) buf = buf ++ bytes

      pub encode_program : Program → Bytes → Bytes
      encode_program Program.done buf = buf
      encode_program (Program.then i prog) buf = encode_program prog (encode_instruction i buf)

      pub encode_instruction : Instruction → Bytes → Bytes
      encode_instruction (Instruction.push data_item) program =
          encode_string data_item
            (write_u32 (as_u32 (string_length data_item)) (write_u8 (to_u8 Opcode.push) program))
      encode_instruction (Instruction.program_item subprog) program = encode_program_item subprog (
          write_u32 (as_u32 (program_item_length subprog))
            (write_u8 (to_u8 Opcode.program) program))
      encode_instruction Instruction.drop program = write_u8 (to_u8 Opcode.drop) program
      encode_instruction (Instruction.dup idx) program =
          write_u32 (as_u32 idx) (write_u8 (to_u8 Opcode.dup) program)
      encode_instruction (Instruction.roll idx) program =
          write_u32 (as_u32 idx) (write_u8 (to_u8 Opcode.roll) program)
      encode_instruction Instruction.const program = write_u8 (to_u8 Opcode.const) program
      encode_instruction Instruction.var program = write_u8 (to_u8 Opcode.var) program
      encode_instruction (Instruction.alloc witness) program = write_u8 (to_u8 Opcode.alloc) program
      encode_instruction Instruction.mintime program = write_u8 (to_u8 Opcode.mintime) program
      encode_instruction Instruction.maxtime program = write_u8 (to_u8 Opcode.maxtime) program
      encode_instruction Instruction.expr program = write_u8 (to_u8 Opcode.expr) program
      encode_instruction Instruction.neg program = write_u8 (to_u8 Opcode.neg) program
      encode_instruction Instruction.add program = write_u8 (to_u8 Opcode.add) program
      encode_instruction Instruction.mul program = write_u8 (to_u8 Opcode.mul) program
      encode_instruction Instruction.eq program = write_u8 (to_u8 Opcode.eq) program
      encode_instruction Instruction.range program = write_u8 (to_u8 Opcode.range) program
      encode_instruction Instruction.and program = write_u8 (to_u8 Opcode.and) program
      encode_instruction Instruction.or program = write_u8 (to_u8 Opcode.or) program
      encode_instruction Instruction.not program = write_u8 (to_u8 Opcode.not) program
      encode_instruction Instruction.verify program = write_u8 (to_u8 Opcode.verify) program
      encode_instruction Instruction.unblind program = write_u8 (to_u8 Opcode.unblind) program
      encode_instruction Instruction.issue program = write_u8 (to_u8 Opcode.issue) program
      encode_instruction Instruction.borrow program = write_u8 (to_u8 Opcode.borrow) program
      encode_instruction Instruction.retire program = write_u8 (to_u8 Opcode.retire) program
      encode_instruction (Instruction.cloak inputs outputs) program =
          write_u32 (as_u32 outputs)
            (write_u32 (as_u32 inputs) (write_u8 (to_u8 Opcode.cloak) program))
      encode_instruction Instruction.input program = write_u8 (to_u8 Opcode.input) program
      encode_instruction (Instruction.output k) program =
          write_u32 (as_u32 k) (write_u8 (to_u8 Opcode.output) program)
      encode_instruction (Instruction.contract k) program =
          write_u32 (as_u32 k) (write_u8 (to_u8 Opcode.contract) program)
      encode_instruction Instruction.log program = write_u8 (to_u8 Opcode.log) program
      encode_instruction Instruction.call program = write_u8 (to_u8 Opcode.call) program
      encode_instruction Instruction.signtx program = write_u8 (to_u8 Opcode.signtx) program
      encode_instruction Instruction.signid program = write_u8 (to_u8 Opcode.signid) program
      encode_instruction Instruction.signtag program = write_u8 (to_u8 Opcode.signtag) program
      encode_instruction (Instruction.ext x) program = write_u8 x program

      pub encode_contract : Contract → Bytes → Bytes
      encode_contract (Contract.contract_of predicate payload anchor) buf = encode_payload payload (
          write_u32 (as_u32 (payload_count payload))
            (write_point (predicate_to_point predicate).bytes32 (write_bytes anchor.bytes32 buf)))

      pub encode_payload : Payload → Bytes → Bytes
      encode_payload Payload.no_items buf = buf
      encode_payload (Payload.item_then item payload) buf =
          encode_payload payload (encode_portable item buf)

      pub encode_portable : PortableItem → Bytes → Bytes
      encode_portable (PortableItem.string_item d) buf =
          encode_string d (write_u32 (as_u32 (string_length d)) (write_u8 string_type buf))
      encode_portable (PortableItem.portable_program p) buf =
          encode_program_item p
            (write_u32 (as_u32 (program_item_length p)) (write_u8 prog_type buf))
      encode_portable (PortableItem.value_item v) buf =
          write_point (commitment_to_point v.flv).bytes32
            (write_point (commitment_to_point v.qty).bytes32 (write_u8 value_type buf))
