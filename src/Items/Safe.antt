-- ===== src/Items/Safe.antt =====
-- Whatever the bytes, the parser of instructions stays in its slice and does not panic.
use zioncoin_poc.Prelude.{ℕ, Option, none, some}
use zioncoin_poc.External.{LittleEndian, Scalars, Curve}
use zioncoin_poc.Encoding.{SliceReader}
use zioncoin_poc.Encoding.Safe.{
  IsValid, Safe, IsSafe, bind-IsSafe, pure-IsSafe, read_u8-IsSafe, read_size-IsSafe,
  read_bytes-IsSafe,
}
use zioncoin_poc.Items.Opcodes.{Opcode, from_u8}
use zioncoin_poc.Items.Parse.{parse_operands, parse_opcode, parse_instruction}

module _ ⦃scalars : Scalars⦄ ⦃curve : Curve⦄ ⦃le : LittleEndian⦄ where
  parse_operands-IsSafe : (op : Opcode) → IsSafe (parse_operands op)
  unfolding parse_operands
  parse_operands-IsSafe Opcode.push =
      bind-IsSafe _ _ read_size-IsSafe
        (λ n. bind-IsSafe _ _ (read_bytes-IsSafe n) (λ bytes. pure-IsSafe _))
  parse_operands-IsSafe Opcode.program =
      bind-IsSafe _ _ read_size-IsSafe
        (λ n. bind-IsSafe _ _ (read_bytes-IsSafe n) (λ bytes. pure-IsSafe _))
  parse_operands-IsSafe Opcode.drop = pure-IsSafe _
  parse_operands-IsSafe Opcode.dup = bind-IsSafe _ _ read_size-IsSafe (λ n. pure-IsSafe _)
  parse_operands-IsSafe Opcode.roll = bind-IsSafe _ _ read_size-IsSafe (λ n. pure-IsSafe _)
  parse_operands-IsSafe Opcode.const = pure-IsSafe _
  parse_operands-IsSafe Opcode.var = pure-IsSafe _
  parse_operands-IsSafe Opcode.alloc = pure-IsSafe _
  parse_operands-IsSafe Opcode.mintime = pure-IsSafe _
  parse_operands-IsSafe Opcode.maxtime = pure-IsSafe _
  parse_operands-IsSafe Opcode.expr = pure-IsSafe _
  parse_operands-IsSafe Opcode.neg = pure-IsSafe _
  parse_operands-IsSafe Opcode.add = pure-IsSafe _
  parse_operands-IsSafe Opcode.mul = pure-IsSafe _
  parse_operands-IsSafe Opcode.eq = pure-IsSafe _
  parse_operands-IsSafe Opcode.range = pure-IsSafe _
  parse_operands-IsSafe Opcode.and = pure-IsSafe _
  parse_operands-IsSafe Opcode.or = pure-IsSafe _
  parse_operands-IsSafe Opcode.not = pure-IsSafe _
  parse_operands-IsSafe Opcode.verify = pure-IsSafe _
  parse_operands-IsSafe Opcode.unblind = pure-IsSafe _
  parse_operands-IsSafe Opcode.issue = pure-IsSafe _
  parse_operands-IsSafe Opcode.borrow = pure-IsSafe _
  parse_operands-IsSafe Opcode.retire = pure-IsSafe _
  parse_operands-IsSafe Opcode.cloak =
      bind-IsSafe _ _ read_size-IsSafe (λ m. bind-IsSafe _ _ read_size-IsSafe (λ n. pure-IsSafe _))
  parse_operands-IsSafe Opcode.input = pure-IsSafe _
  parse_operands-IsSafe Opcode.output = bind-IsSafe _ _ read_size-IsSafe (λ n. pure-IsSafe _)
  parse_operands-IsSafe Opcode.contract = bind-IsSafe _ _ read_size-IsSafe (λ n. pure-IsSafe _)
  parse_operands-IsSafe Opcode.log = pure-IsSafe _
  parse_operands-IsSafe Opcode.call = pure-IsSafe _
  parse_operands-IsSafe Opcode.signtx = pure-IsSafe _
  parse_operands-IsSafe Opcode.signid = pure-IsSafe _
  parse_operands-IsSafe Opcode.signtag = pure-IsSafe _

  pub parse_opcode-IsSafe : (byte : ℕ) (o : Option Opcode) → IsSafe (parse_opcode byte o)
  unfolding parse_opcode
  parse_opcode-IsSafe byte none = pure-IsSafe _
  parse_opcode-IsSafe byte (some op) = parse_operands-IsSafe op

  parse_instruction-IsSafe : IsSafe parse_instruction
  unfolding parse_instruction
  parse_instruction-IsSafe =
      bind-IsSafe _ _ read_u8-IsSafe (λ byte. parse_opcode-IsSafe byte (from_u8 byte))

  -- From every reader that is in its slice, `Instruction::parse` returns an error, or an instruction
  -- and a reader that is in its slice and has at most as much left. It does not panic.
  pub parse_instruction-Safe : (r : SliceReader) → IsValid r → Safe r (parse_instruction r)
  parse_instruction-Safe r valid = parse_instruction-IsSafe.from r valid
