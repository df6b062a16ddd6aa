-- ===== src/Items.antt =====
-- The data of a program: its instructions (zkvm/src/ops.rs), programs and views of programs
-- (program.rs), and the strings that they push (types.rs), which hold predicates (predicate.rs),
-- commitments (constraints.rs), scalars (scalar_witness.rs, and signed_integer.rs of spacesuit) and
-- contracts (contract.rs). A list of items is a data type of its own.
pub mod Arrays
pub mod Opcodes
pub mod Encode
pub mod Parse
pub mod Lengths
pub mod Decode
pub mod Pieces
pub mod Contracts
pub mod Ids
pub mod RoundTrip
pub mod Safe
mod Runs
use zioncoin_poc.Prelude.{ℕ, suc, ◌+◌, ◌%◌, ◌^◌, ◌≡◌, Option, none, some, List, length}
use zioncoin_poc.Prelude.Bytes.{Bytes}
use zioncoin_poc.External.{Scalars, Curve}

-- `[u8; 32]`, and a compressed point
pub record Bytes32 : Type 0 where
  pub bytes32 : Bytes
  pub is_32 : length bytes32 ≡ 32

-- `i128`; a `SignedInteger` has an absolute value below 2 ^ 64.
pub data ℤ : Type 0 where
  pos : ℕ → ℤ
  negsuc : ℕ → ℤ

module _ ⦃scalars : Scalars⦄ where
  pub data ScalarWitness : Type 0 where
    integer : ℤ → ScalarWitness
    scalar : scalars.Scalar → ScalarWitness

  pub record CommitmentWitness : Type 0 where
    pub value : ScalarWitness
    pub blinding : scalars.Scalar

  pub data Commitment : Type 0 where
    closed : Bytes32 → Commitment
    open_with : CommitmentWitness → Commitment

  pub record Value : Type 0 where
    pub qty : Commitment
    pub flv : Commitment

  module _ ⦃curve : Curve⦄ where
    pub record VerificationKey : Type 0 where
      pub point : curve.Point
      pub precompressed : Bytes32

    mutual
      pub data VmString : Type 0 where
        opaque_bytes : Bytes → VmString
        predicate : Predicate → VmString
        commitment : Commitment → VmString
        scalar_witness : ScalarWitness → VmString
        output_contract : Contract → VmString

      pub data ProgramItem : Type 0 where
        bytecode : Bytes → ProgramItem
        program : Program → ProgramItem

      -- `Vec<Instruction>`
      pub data Program : Type 0 where
        done : Program
        then : Instruction → Program → Program

      pub data Instruction : Type 0 where
        push : VmString → Instruction
        program_item : ProgramItem → Instruction
        drop : Instruction
        dup : ℕ → Instruction
        roll : ℕ → Instruction
        const var : Instruction
        alloc : Option ScalarWitness → Instruction
        mintime maxtime expr neg add mul eq range and or not : Instruction
        verify unblind issue borrow retire : Instruction
        cloak : ℕ → ℕ → Instruction
        input : Instruction
        output : ℕ → Instruction
        contract : ℕ → Instruction
        log call signtx signid signtag : Instruction
        ext : ℕ → Instruction

      pub data Predicate : Type 0 where
        opaque_point : Bytes32 → Predicate
        key : VerificationKey → Predicate
        tree : PredicateTree → Predicate

      -- The leaves, the key, the blinding key, the precomputed key and the adjustment factor
      pub data PredicateTree : Type 0 where
        predicate_tree :
            Leaves → VerificationKey → Bytes32 → VerificationKey → scalars.Scalar → PredicateTree

      pub data PredicateLeaf : Type 0 where
        program_leaf : ProgramItem → PredicateLeaf
        blinding_leaf : Bytes → PredicateLeaf

      -- `Vec<PredicateLeaf>`
      pub data Leaves : Type 0 where
        no_leaves : Leaves
        leaf_then : PredicateLeaf → Leaves → Leaves

      -- The predicate, the payload and the anchor
      pub data Contract : Type 0 where
        contract_of : Predicate → Payload → Bytes32 → Contract

      -- `Vec<PortableItem>`
      pub data Payload : Type 0 where
        no_items : Payload
        item_then : PortableItem → Payload → Payload

      pub data PortableItem : Type 0 where
        string_item : VmString → PortableItem
        portable_program : ProgramItem → PortableItem
        value_item : Value → PortableItem
