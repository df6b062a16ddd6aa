-- ===== src/Items/RoundTrip.antt =====
-- The parser of instructions reads what the encoder wrote, and never panics.
use zioncoin_poc.Prelude.{ℕ, ◌%◌, ◌^◌, ◌<◌, ◌≡◌, none, [], ◌∷◌, arith, lt→ltb}
use zioncoin_poc.Prelude.Bytes.{Bytes}
use zioncoin_poc.External.{LittleEndian, Scalars, Curve}
use zioncoin_poc.Encoding
use zioncoin_poc.Encoding.{write_u8, write_u32, read_u8, read_size, read_bytes, ◌>>=◌}
use zioncoin_poc.Encoding.Reads.{
  Reads, Reads-bind, Reads-then, Reads-pure, Reads-read_u8, Reads-read_size,
}
use zioncoin_poc.Items.{VmString, ProgramItem, Instruction}
use zioncoin_poc.Items.Opcodes.{Opcode, to_u8, from_u8, from_u8-to_u8, max_opcode}
use zioncoin_poc.Items.Encode.{
  as_u32, string_length, program_item_length, encode_string, encode_program_item,
  encode_instruction,
}
use zioncoin_poc.Items.Parse.{parse_operands, parse_opcode, parse_instruction}
use zioncoin_poc.Items.Pieces.{Reads-sized}
use zioncoin_poc.Items.Lengths.{string-Appends, program_item-Appends}

module _ ⦃scalars : Scalars⦄ ⦃curve : Curve⦄ where
  -- The operands fit in 32 bits, and an extension is none of the opcodes.
  unfoldable pub InstructionFits : Instruction → Type 0
  InstructionFits (Instruction.push s) = string_length s < 2 ^ 32
  InstructionFits (Instruction.program_item p) = program_item_length p < 2 ^ 32
  InstructionFits (Instruction.dup idx) = idx < 2 ^ 32
  InstructionFits (Instruction.roll idx) = idx < 2 ^ 32
  InstructionFits (Instruction.output k) = k < 2 ^ 32
  InstructionFits (Instruction.contract k) = k < 2 ^ 32
  InstructionFits (Instruction.cloak m n) = (m < 2 ^ 32) × (n < 2 ^ 32)
  InstructionFits (Instruction.ext x) = max_opcode < x
  InstructionFits _ = Unit {0}

  module _ ⦃le : LittleEndian⦄ where
    -- What the verifier sees of an instruction: pushed strings and programs as bytes, no witness.
    unfoldable pub verifier_view : Instruction → Instruction
    verifier_view (Instruction.push s) =
        Instruction.push (VmString.opaque_bytes (encode_string s []))
    verifier_view (Instruction.program_item p) =
        Instruction.program_item (ProgramItem.bytecode (encode_program_item p []))
    verifier_view (Instruction.alloc witness) = Instruction.alloc none
    verifier_view i = i

    Reads-opcode :
        (op : Opcode) {xs : Bytes} {i : Instruction}
        → Reads (parse_operands op) xs i
        → Reads parse_instruction (to_u8 op ∷ xs) i
    unfolding parse_instruction parse_opcode
    Reads-opcode op {xs} {i} h =
        Reads-bind (λ byte. parse_opcode byte (from_u8 byte)) (Reads-read_u8 (to_u8 op))
          (rw (from_u8-to_u8 op) h)

    Reads-ext : (x : ℕ) → max_opcode < x → Reads parse_instruction (x ∷ []) (Instruction.ext x)
    unfolding parse_instruction parse_opcode from_u8
    Reads-ext x h =
        Reads-bind (λ byte. parse_opcode byte (from_u8 byte)) (Reads-read_u8 x)
          (rw (lt→ltb max_opcode x h) (Reads-pure (Instruction.ext x)))

    -- An operand of 32 bits
    Reads-operand :
        (f : ℕ → Instruction) (x : ℕ)
        → x < 2 ^ 32
        → Reads (read_size >>= λ n. Encoding.pure (f n)) (le.write_u32 (as_u32 x)) (f x)
    Reads-operand f x h =
        let small : x % 2 ^ 32 ≡ x = omega (arith, h) in
        rw small (Reads-then f (Reads-read_size x h))

    -- An instruction whose operands fit is parsed from its encoding to what the verifier sees of it.
    pub parse_instruction-encode_instruction :
        (i : Instruction)
        → InstructionFits i
        → Reads parse_instruction (encode_instruction i []) (verifier_view i)
    unfolding encode_instruction verifier_view InstructionFits parse_operands write_u8 write_u32
    parse_instruction-encode_instruction (Instruction.push s) fits =
        let a = string-Appends s in
        rw (a.appends (to_u8 Opcode.push ∷ le.write_u32 (as_u32 (string_length s))), a.appends [])
          (Reads-opcode Opcode.push
            (Reads-sized (λ b. Instruction.push (VmString.opaque_bytes b)) a fits))
    parse_instruction-encode_instruction (Instruction.program_item p) fits =
        let a = program_item-Appends p in
        rw
          (
            a.appends (to_u8 Opcode.program ∷ le.write_u32 (as_u32 (program_item_length p))),
            a.appends [],
          )
          (Reads-opcode Opcode.program
            (Reads-sized (λ b. Instruction.program_item (ProgramItem.bytecode b)) a fits))
    parse_instruction-encode_instruction (Instruction.dup n) fits =
        Reads-opcode Opcode.dup (Reads-operand Instruction.dup n fits)
    parse_instruction-encode_instruction (Instruction.roll n) fits =
        Reads-opcode Opcode.roll (Reads-operand Instruction.roll n fits)
    parse_instruction-encode_instruction (Instruction.output n) fits =
        Reads-opcode Opcode.output (Reads-operand Instruction.output n fits)
    parse_instruction-encode_instruction (Instruction.contract n) fits =
        Reads-opcode Opcode.contract (Reads-operand Instruction.contract n fits)
    parse_instruction-encode_instruction (Instruction.cloak m n) fits =
        let small : m % 2 ^ 32 ≡ m = omega (arith, fits.0) in
        rw small (
          Reads-opcode Opcode.cloak (
            Reads-bind _ (Reads-read_size m fits.0) (Reads-operand (Instruction.cloak m) n fits.1)))
    parse_instruction-encode_instruction (Instruction.ext x) fits = Reads-ext x fits
    parse_instruction-encode_instruction (Instruction.alloc w) fits =
        Reads-opcode Opcode.alloc (Reads-pure (Instruction.alloc none))
    parse_instruction-encode_instruction Instruction.drop fits =
        Reads-opcode Opcode.drop (Reads-pure Instruction.drop)
    parse_instruction-encode_instruction Instruction.const fits =
        Reads-opcode Opcode.const (Reads-pure Instruction.const)
    parse_instruction-encode_instruction Instruction.var fits =
        Reads-opcode Opcode.var (Reads-pure Instruction.var)
    parse_instruction-encode_instruction Instruction.mintime fits =
        Reads-opcode Opcode.mintime (Reads-pure Instruction.mintime)
    parse_instruction-encode_instruction Instruction.maxtime fits =
        Reads-opcode Opcode.maxtime (Reads-pure Instruction.maxtime)
    parse_instruction-encode_instruction Instruction.expr fits =
        Reads-opcode Opcode.expr (Reads-pure Instruction.expr)
    parse_instruction-encode_instruction Instruction.neg fits =
        Reads-opcode Opcode.neg (Reads-pure Instruction.neg)
    parse_instruction-encode_instruction Instruction.add fits =
        Reads-opcode Opcode.add (Reads-pure Instruction.add)
    parse_instruction-encode_instruction Instruction.mul fits =
        Reads-opcode Opcode.mul (Reads-pure Instruction.mul)
    parse_instruction-encode_instruction Instruction.eq fits =
        Reads-opcode Opcode.eq (Reads-pure Instruction.eq)
    parse_instruction-encode_instruction Instruction.range fits =
        Reads-opcode Opcode.range (Reads-pure Instruction.range)
    parse_instruction-encode_instruction Instruction.and fits =
        Reads-opcode Opcode.and (Reads-pure Instruction.and)
    parse_instruction-encode_instruction Instruction.or fits =
        Reads-opcode Opcode.or (Reads-pure Instruction.or)
    parse_instruction-encode_instruction Instruction.not fits =
        Reads-opcode Opcode.not (Reads-pure Instruction.not)
    parse_instruction-encode_instruction Instruction.verify fits =
        Reads-opcode Opcode.verify (Reads-pure Instruction.verify)
    parse_instruction-encode_instruction Instruction.unblind fits =
        Reads-opcode Opcode.unblind (Reads-pure Instruction.unblind)
    parse_instruction-encode_instruction Instruction.issue fits =
        Reads-opcode Opcode.issue (Reads-pure Instruction.issue)
    parse_instruction-encode_instruction Instruction.borrow fits =
        Reads-opcode Opcode.borrow (Reads-pure Instruction.borrow)
    parse_instruction-encode_instruction Instruction.retire fits =
        Reads-opcode Opcode.retire (Reads-pure Instruction.retire)
    parse_instruction-encode_instruction Instruction.input fits =
        Reads-opcode Opcode.input (Reads-pure Instruction.input)
    parse_instruction-encode_instruction Instruction.log fits =
        Reads-opcode Opcode.log (Reads-pure Instruction.log)
    parse_instruction-encode_instruction Instruction.call fits =
        Reads-opcode Opcode.call (Reads-pure Instruction.call)
    parse_instruction-encode_instruction Instruction.signtx fits =
        Reads-opcode Opcode.signtx (Reads-pure Instruction.signtx)
    parse_instruction-encode_instruction Instruction.signid fits =
        Reads-opcode Opcode.signid (Reads-pure Instruction.signid)
    parse_instruction-encode_instruction Instruction.signtag fits =
        Reads-opcode Opcode.signtag (Reads-pure Instruction.signtag)
