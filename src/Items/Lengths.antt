-- ===== src/Items/Lengths.antt =====
-- Every encoder appends to its buffer as many bytes as it announces.
use zioncoin_poc.Prelude.{
  ℕ, ◌+◌, ◌≡◌, refl, sym, ap, ◌∙◌, [], ◌∷◌, ◌++◌, arith, append_assoc, append-nil, length,
  length-append,
}
use zioncoin_poc.Prelude.Bytes.{Bytes}
use zioncoin_poc.External.{LittleEndian, Scalars, Curve}
use zioncoin_poc.Encoding.{write_u8, write_u32, write_bytes, write_point}
use zioncoin_poc.Items.{
  Bytes32, ScalarWitness, VmString, ProgramItem, Program, Instruction, Contract, Payload,
  PortableItem,
}
use zioncoin_poc.Items.Opcodes.{Opcode, to_u8}
use zioncoin_poc.Items.Encode.{
  as_u32, string_type, prog_type, value_type, to_scalar, encode_scalar, commitment_to_point,
  encode_commitment, predicate_to_point, encode_predicate, string_length, program_item_length,
  program_length, instruction_length, contract_length, payload_length, portable_length,
  payload_count, encode_string, encode_program_item, encode_program, encode_instruction,
  encode_contract, encode_payload, encode_portable,
}

-- The encoder appends the same bytes to every buffer, and they are `n`.
pub record Appends (encoder : Bytes → Bytes) (n : ℕ) : Type 0 where
  pub bytes : Bytes
  pub appends : (buf : Bytes) → encoder buf ≡ buf ++ bytes
  pub count : length bytes ≡ n

-- One encoder after another
then-Appends :
    {f g : Bytes → Bytes} {m n : ℕ} → Appends f m → Appends g n → Appends (λ buf. g (f buf)) (m + n)
then-Appends {f} {g} a b = record {
  bytes = a.bytes ++ b.bytes;
  appends = λ buf.
      b.appends (f buf) ∙ ap (λ x. x ++ b.bytes) (a.appends buf) ∙ append_assoc buf a.bytes b.bytes;
  count = omega (arith, length-append a.bytes b.bytes, a.count, b.count);
}

-- The same count, written in another way
counted : {f : Bytes → Bytes} {m n : ℕ} → Appends f m → m ≡ n → Appends f n
counted a e = record { bytes = a.bytes; appends = a.appends; count = a.count ∙ e }

nothing : Appends (λ buf. buf) 0
nothing = record { bytes = []; appends = λ buf. sym (append-nil buf); count = refl }

raw : (xs : Bytes) → Appends (λ buf. buf ++ xs) (length xs)
raw xs = record { bytes = xs; appends = λ buf. refl; count = refl }

write_u8-Appends : (x : ℕ) → Appends (write_u8 x) 1
unfolding write_u8
write_u8-Appends x = record { bytes = x ∷ []; appends = λ buf. refl; count = refl }

array-Appends : (p : Bytes32) → Appends (write_bytes p.bytes32) 32
unfolding write_bytes
array-Appends p = record { bytes = p.bytes32; appends = λ buf. refl; count = p.is_32 }

point-Appends : (p : Bytes32) → Appends (write_point p.bytes32) 32
unfolding write_point write_bytes
point-Appends p = record { bytes = p.bytes32; appends = λ buf. refl; count = p.is_32 }

module _ ⦃le : LittleEndian⦄ where
  write_u32-Appends : (x : ℕ) → Appends (write_u32 x) 4
  unfolding write_u32
  write_u32-Appends x = record {
    bytes = le.write_u32 x;
    appends = λ buf. refl;
    count = le.length-write_u32 x;
  }

  -- A byte, then a number of 32 bits
  tagged : (tag x : ℕ) → Appends (λ buf. write_u32 x (write_u8 tag buf)) (1 + 4)
  tagged tag x = then-Appends (write_u8-Appends tag) (write_u32-Appends x)

module _ ⦃scalars : Scalars⦄ ⦃curve : Curve⦄ where
  encode_scalar-Appends : (s : ScalarWitness) → Appends (encode_scalar s) 32
  unfolding encode_scalar
  encode_scalar-Appends s = array-Appends (record {
    bytes32 = scalars.as_bytes (to_scalar s);
    is_32 = scalars.length-as_bytes (to_scalar s);
  })

  module _ ⦃le : LittleEndian⦄ where
    mutual
      unfolding encode_string string_length encode_predicate encode_commitment

      -- The bytes of a string are as many as its `serialized_length`.
      pub string-Appends : (s : VmString) → Appends (encode_string s) (string_length s)
      string-Appends (VmString.opaque_bytes x) = raw x
      string-Appends (VmString.predicate p) = point-Appends (predicate_to_point p)
      string-Appends (VmString.commitment c) = point-Appends (commitment_to_point c)
      string-Appends (VmString.scalar_witness s) = encode_scalar-Appends s
      string-Appends (VmString.output_contract c) = contract-Appends c

      pub program_item-Appends :
          (p : ProgramItem) → Appends (encode_program_item p) (program_item_length p)
      program_item-Appends (ProgramItem.program prog) = program-Appends prog
      program_item-Appends (ProgramItem.bytecode bytes) = raw bytes

      pub program-Appends : (p : Program) → Appends (encode_program p) (program_length p)
      program-Appends Program.done = nothing
      program-Appends (Program.then i prog) =
          then-Appends (instruction-Appends i) (program-Appends prog)

      pub instruction-Appends :
          (i : Instruction) → Appends (encode_instruction i) (instruction_length i)
      instruction-Appends (Instruction.push s) =
          then-Appends (tagged (to_u8 Opcode.push) (as_u32 (string_length s))) (string-Appends s)
      instruction-Appends (Instruction.program_item p) =
          then-Appends (tagged (to_u8 Opcode.program) (as_u32 (program_item_length p)))
            (program_item-Appends p)
      instruction-Appends (Instruction.dup idx) = tagged (to_u8 Opcode.dup) (as_u32 idx)
      instruction-Appends (Instruction.roll idx) = tagged (to_u8 Opcode.roll) (as_u32 idx)
      instruction-Appends (Instruction.output k) = tagged (to_u8 Opcode.output) (as_u32 k)
      instruction-Appends (Instruction.contract k) = tagged (to_u8 Opcode.contract) (as_u32 k)
      instruction-Appends (Instruction.cloak m n) =
          then-Appends (tagged (to_u8 Opcode.cloak) (as_u32 m)) (write_u32-Appends (as_u32 n))
      instruction-Appends (Instruction.alloc w) = write_u8-Appends (to_u8 Opcode.alloc)
      instruction-Appends (Instruction.ext x) = write_u8-Appends x
      instruction-Appends Instruction.drop = write_u8-Appends (to_u8 Opcode.drop)
      instruction-Appends Instruction.const = write_u8-Appends (to_u8 Opcode.const)
      instruction-Appends Instruction.var = write_u8-Appends (to_u8 Opcode.var)
      instruction-Appends Instruction.mintime = write_u8-Appends (to_u8 Opcode.mintime)
      instruction-Appends Instruction.maxtime = write_u8-Appends (to_u8 Opcode.maxtime)
      instruction-Appends Instruction.expr = write_u8-Appends (to_u8 Opcode.expr)
      instruction-Appends Instruction.neg = write_u8-Appends (to_u8 Opcode.neg)
      instruction-Appends Instruction.add = write_u8-Appends (to_u8 Opcode.add)
      instruction-Appends Instruction.mul = write_u8-Appends (to_u8 Opcode.mul)
      instruction-Appends Instruction.eq = write_u8-Appends (to_u8 Opcode.eq)
      instruction-Appends Instruction.range = write_u8-Appends (to_u8 Opcode.range)
      instruction-Appends Instruction.and = write_u8-Appends (to_u8 Opcode.and)
      instruction-Appends Instruction.or = write_u8-Appends (to_u8 Opcode.or)
      instruction-Appends Instruction.not = write_u8-Appends (to_u8 Opcode.not)
      instruction-Appends Instruction.verify = write_u8-Appends (to_u8 Opcode.verify)
      instruction-Appends Instruction.unblind = write_u8-Appends (to_u8 Opcode.unblind)
      instruction-Appends Instruction.issue = write_u8-Appends (to_u8 Opcode.issue)
      instruction-Appends Instruction.borrow = write_u8-Appends (to_u8 Opcode.borrow)
      instruction-Appends Instruction.retire = write_u8-Appends (to_u8 Opcode.retire)
      instruction-Appends Instruction.input = write_u8-Appends (to_u8 Opcode.input)
      instruction-Appends Instruction.log = write_u8-Appends (to_u8 Opcode.log)
      instruction-Appends Instruction.call = write_u8-Appends (to_u8 Opcode.call)
      instruction-Appends Instruction.signtx = write_u8-Appends (to_u8 Opcode.signtx)
      instruction-Appends Instruction.signid = write_u8-Appends (to_u8 Opcode.signid)
      instruction-Appends Instruction.signtag = write_u8-Appends (to_u8 Opcode.signtag)

      pub contract-Appends : (c : Contract) → Appends (encode_contract c) (contract_length c)
      contract-Appends (Contract.contract_of predicate payload anchor) =
          then-Appends
            (then-Appends
              (then-Appends (array-Appends anchor) (point-Appends (predicate_to_point predicate)))
              (write_u32-Appends (as_u32 (payload_count payload))))
            (payload-Appends payload)

      pub payload-Appends : (p : Payload) → Appends (encode_payload p) (payload_length p)
      payload-Appends Payload.no_items = nothing
      payload-Appends (Payload.item_then item payload) =
          then-Appends (portable-Appends item) (payload-Appends payload)

      pub portable-Appends :
          (item : PortableItem) → Appends (encode_portable item) (portable_length item)
      portable-Appends (PortableItem.string_item d) =
          then-Appends (tagged string_type (as_u32 (string_length d))) (string-Appends d)
      portable-Appends (PortableItem.portable_program p) =
          then-Appends (tagged prog_type (as_u32 (program_item_length p))) (program_item-Appends p)
      portable-Appends (PortableItem.value_item v) =
          counted
            (then-Appends
              (then-Appends (write_u8-Appends value_type)
                (point-Appends (commitment_to_point v.qty)))
              (point-Appends (commitment_to_point v.flv)))
            refl

    -- An instruction takes as many bytes as its `serialized_length`.
    pub length-encode_instruction :
        (i : Instruction) (buf : Bytes)
        → length (encode_instruction i buf) ≡ length buf + instruction_length i
    length-encode_instruction i buf =
        let a = instruction-Appends i in
        ap length (a.appends buf) ∙ omega (arith, length-append buf a.bytes, a.count)

    -- A contract takes as many bytes as its `serialized_length`.
    pub length-encode_contract :
        (c : Contract) (buf : Bytes)
        → length (encode_contract c buf) ≡ length buf + contract_length c
    length-encode_contract c buf =
        let a = contract-Appends c in
        ap length (a.appends buf) ∙ omega (arith, length-append buf a.bytes, a.count)
