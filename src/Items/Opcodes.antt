-- ===== src/Items/Opcodes.antt =====
-- zkvm/src/ops.rs: the opcodes and their numbers.
use zioncoin_poc.Prelude.{
  ℕ, ◌≡◌, refl, Option, none, some, List, [], ◌∷◌, ltb, if◌then◌else◌, get_elem?,
}

pub data Opcode : Type 0 where
  push program drop dup roll const var alloc mintime maxtime expr : Opcode
  neg add mul eq range and or not verify unblind issue : Opcode
  borrow retire cloak input output contract log call signtx signid signtag : Opcode

abbrev pub max_opcode : ℕ
max_opcode = 0x20

-- `Opcode::to_u8`
unfoldable pub to_u8 : Opcode → ℕ
to_u8 push = 0x00
to_u8 program = 0x01
to_u8 drop = 0x02
to_u8 dup = 0x03
to_u8 roll = 0x04
to_u8 const = 0x05
to_u8 var = 0x06
to_u8 alloc = 0x07
to_u8 mintime = 0x08
to_u8 maxtime = 0x09
to_u8 expr = 0x0a
to_u8 neg = 0x0b
to_u8 add = 0x0c
to_u8 mul = 0x0d
to_u8 eq = 0x0e
to_u8 range = 0x0f
to_u8 and = 0x10
to_u8 or = 0x11
to_u8 not = 0x12
to_u8 verify = 0x13
to_u8 unblind = 0x14
to_u8 issue = 0x15
to_u8 borrow = 0x16
to_u8 retire = 0x17
to_u8 cloak = 0x18
to_u8 input = 0x19
to_u8 output = 0x1a
to_u8 contract = 0x1b
to_u8 log = 0x1c
to_u8 call = 0x1d
to_u8 signtx = 0x1e
to_u8 signid = 0x1f
to_u8 signtag = 0x20

-- The opcodes in the order of their numbers
abbrev opcodes : List Opcode
opcodes =
    push ∷ program ∷ drop ∷ dup ∷ roll ∷ const ∷ var ∷ alloc ∷ mintime ∷ maxtime ∷ expr ∷ neg ∷ add
    ∷ mul ∷ eq ∷ range ∷ and ∷ or ∷ not ∷ verify ∷ unblind ∷ issue ∷ borrow ∷ retire ∷ cloak ∷ input
    ∷ output ∷ contract ∷ log ∷ call ∷ signtx ∷ signid ∷ signtag ∷ []

-- `Opcode::from_u8`: a number up to the last is the opcode's own.
unfoldable pub from_u8 : ℕ → Option Opcode
from_u8 code = if ltb max_opcode code then none else get_elem? opcodes code

-- An opcode is read back from its number.
pub from_u8-to_u8 : (op : Opcode) → from_u8 (to_u8 op) ≡ some op
unfolding from_u8 to_u8
from_u8-to_u8 push = refl
from_u8-to_u8 program = refl
from_u8-to_u8 drop = refl
from_u8-to_u8 dup = refl
from_u8-to_u8 roll = refl
from_u8-to_u8 const = refl
from_u8-to_u8 var = refl
from_u8-to_u8 alloc = refl
from_u8-to_u8 mintime = refl
from_u8-to_u8 maxtime = refl
from_u8-to_u8 expr = refl
from_u8-to_u8 neg = refl
from_u8-to_u8 add = refl
from_u8-to_u8 mul = refl
from_u8-to_u8 eq = refl
from_u8-to_u8 range = refl
from_u8-to_u8 and = refl
from_u8-to_u8 or = refl
from_u8-to_u8 not = refl
from_u8-to_u8 verify = refl
from_u8-to_u8 unblind = refl
from_u8-to_u8 issue = refl
from_u8-to_u8 borrow = refl
from_u8-to_u8 retire = refl
from_u8-to_u8 cloak = refl
from_u8-to_u8 input = refl
from_u8-to_u8 output = refl
from_u8-to_u8 contract = refl
from_u8-to_u8 log = refl
from_u8-to_u8 call = refl
from_u8-to_u8 signtx = refl
from_u8-to_u8 signid = refl
from_u8-to_u8 signtag = refl
