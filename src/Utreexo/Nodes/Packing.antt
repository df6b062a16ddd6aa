-- ===== src/Utreexo/Nodes/Packing.antt =====
-- Packing a node into its bytes loses nothing.
use Prim.Native.Nat.{bit_and}
use zioncoin_poc.Prelude.{
  ℕ, zero, suc, ◌+◌, ◌*◌, ◌/◌, ◌%◌, ◌^◌, ◌<◌, ◌≡◌, refl, Bool, true, false, ◌&&◌, Option, none,
  some, arith, ◌==◌, if◌then◌else◌,
}
use zioncoin_poc.Utreexo.Nodes.{NodeIndex, Node, pack, unpack, child_flag}

-- The three fields of a byte of flags, as arithmetic.
abbrev flags_agree : ℕ → Bool
flags_agree f =
    (bit_and f 63 == f % 64)
    && ((bit_and f 64 == f / 64 % 2 * 64) && (bit_and f 128 == f / 128 * 128))

-- The table of the bytes below `n`.
table : ℕ → Bool
table zero = true
table (suc n) = let smaller = table n in if flags_agree n then smaller else false

table-flags_agree : (n f : ℕ) → table n ≡ true → f < n → flags_agree f ≡ true
unfolding table
table-flags_agree zero f whole below = absurd (omega arith)
table-flags_agree (suc n) f whole below = ground (arith, table-flags_agree n f)

byte-flags_agree : (f : ℕ) → f < 256 → flags_agree f ≡ true
unfolding table
byte-flags_agree f below = table-flags_agree 256 f refl below

byte_fields :
    (f : ℕ)
    → f < 256
    → (bit_and f 63 ≡ f % 64) × (bit_and f 64 ≡ f / 64 % 2 * 64) × (bit_and f 128 ≡ f / 128 * 128)
byte_fields f below = ground (arith, byte-flags_agree f below)

abbrev is_none : Option (NodeIndex × NodeIndex) → Bool
is_none none = true
is_none (some c) = false

-- The indices of the children fit in 32 bits, as `allocate` asserts.
abbrev pub ChildrenFit : Option (NodeIndex × NodeIndex) → Type 0
ChildrenFit none = Unit {0}
ChildrenFit (some c) = (c.0 < 2 ^ 32) × (c.1 < 2 ^ 32)

-- The byte of flags, read back.
flags_lem :
    (level : ℕ) (modified : Bool) (children : Option (NodeIndex × NodeIndex))
    → level < 64
    → let f = (level % 256 + (if modified then 64 else 0) + child_flag children) % 256 in
      (bit_and f 63 ≡ level)
      × ((bit_and f 64 == 64) ≡ modified)
      × ((bit_and f 128 == 0) ≡ is_none children)
unfolding child_flag
flags_lem level modified children h =
    let f = (level % 256 + (if modified then 64 else 0) + child_flag children) % 256 in
    let fields = byte_fields f (omega arith) in
    rw (fields.0, fields.1, fields.2) (ground arith, ground arith, ground arith)

-- A node of a level below 64 with children's indices in 32 bits is what `unpack` makes of its
-- packed form, at its own index.
pub unpack-pack :
    (node : Node)
    → node.level < 64
    → ChildrenFit node.children
    → unpack (pack node) node.index ≡ node
unfolding unpack pack
unpack-pack node h fit = ground (arith, flags_lem node.level node.modified node.children h)
