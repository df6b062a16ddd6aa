-- ===== src/Items/Parse.antt =====
-- zkvm/src/ops.rs: `Instruction::parse`.
use zioncoin_poc.Prelude.{ℕ, Option, none, some}
use zioncoin_poc.External.{LittleEndian, Scalars, Curve}
use zioncoin_poc.Encoding.{Reader, ◌>>=◌, pure, read_u8, read_size, read_bytes}
use zioncoin_poc.Items.{VmString, ProgramItem, Instruction}
use zioncoin_poc.Items.Opcodes.{Opcode, from_u8}

module _ ⦃scalars : Scalars⦄ ⦃curve : Curve⦄ ⦃le : LittleEndian⦄ where
  -- The `match` on the opcode
  unfoldable pub parse_operands : Opcode → Reader Instruction
  parse_operands Opcode.push = do
    strlen ← read_size
    data_slice ← read_bytes strlen
    pure (Instruction.push (VmString.opaque_bytes data_slice))
  parse_operands Opcode.program = do
    strlen ← read_size
    data_slice ← read_bytes strlen
    pure (Instruction.program_item (ProgramItem.bytecode data_slice))
  parse_operands Opcode.drop = pure Instruction.drop
  parse_operands Opcode.dup = do idx ← read_size; pure (Instruction.dup idx)
  parse_operands Opcode.roll = do idx ← read_size; pure (Instruction.roll idx)
  parse_operands Opcode.const = pure Instruction.const
  parse_operands Opcode.var = pure Instruction.var
  parse_operands Opcode.alloc = pure (Instruction.alloc none)
  parse_operands Opcode.mintime = pure Instruction.mintime
  parse_operands Opcode.maxtime = pure Instruction.maxtime
  parse_operands Opcode.expr = pure Instruction.expr
  parse_operands Opcode.neg = pure Instruction.neg
  parse_operands Opcode.add = pure Instruction.add
  parse_operands Opcode.mul = pure Instruction.mul
  parse_operands Opcode.eq = pure Instruction.eq
  parse_operands Opcode.range = pure Instruction.range
  parse_operands Opcode.and = pure Instruction.and
  parse_operands Opcode.or = pure Instruction.or
  parse_operands Opcode.not = pure Instruction.not
  parse_operands Opcode.verify = pure Instruction.verify
  parse_operands Opcode.unblind = pure Instruction.unblind
  parse_operands Opcode.issue = pure Instruction.issue
  parse_operands Opcode.borrow = pure Instruction.borrow
  parse_operands Opcode.retire = pure Instruction.retire
  parse_operands Opcode.cloak = do m ← read_size; n ← read_size; pure (Instruction.cloak m n)
  parse_operands Opcode.input = pure Instruction.input
  parse_operands Opcode.output = do k ← read_size; pure (Instruction.output k)
  parse_operands Opcode.contract = do k ← read_size; pure (Instruction.contract k)
  parse_operands Opcode.log = pure Instruction.log
  parse_operands Opcode.call = pure Instruction.call
  parse_operands Opcode.signtx = pure Instruction.signtx
  parse_operands Opcode.signid = pure Instruction.signid
  parse_operands Opcode.signtag = pure Instruction.signtag

  -- An unknown opcode is an extension.
  unfoldable pub parse_opcode : ℕ → Option Opcode → Reader Instruction
  parse_opcode byte none = pure (Instruction.ext byte)
  parse_opcode byte (some op) = parse_operands op

  unfoldable pub parse_instruction : Reader Instruction
  parse_instruction = do byte ← read_u8; parse_opcode byte (from_u8 byte)
