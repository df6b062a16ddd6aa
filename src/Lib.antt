-- ===== src/Lib.antt =====
-- A model of ZkVM's Rust code, with the theorems that make its parts correct.
--
-- The program is a blockchain of confidential transactions. A node (zkvm/src/blockchain) keeps the
-- header of its last block and a utreexo, a forest of Merkle trees of which it stores the roots
-- (zkvm/src/utreexo). A block lists transactions (zkvm/src/tx.rs); each is verified, and its log
-- says which contracts leave the forest, by a proof, and which enter it. Ids and roots are hashes by
-- merlin's transcript, over Merkle trees (zkvm/src/merkle.rs).
--
-- To verify a transaction, a stack machine (zkvm/src/vm.rs) runs its program. The verifier
-- (zkvm/src/verifier.rs) is its delegate: it parses the instructions, keeps the constraint system and
-- defers the operations on points (zkvm/src/point_ops.rs), which it then checks in one batch, with the
-- signature (musig/src/signature.rs) and the proof.
--
-- Files:
--   Prelude: shared types, list lemmas, and `Result`, the outcome of a Rust call: a value, an
--     error, a panic, or `stuck` where the fuel of a loop ran out.
--   External: what the program takes from other crates, as records that are instance arguments:
--     byteorder's `LittleEndian`, merlin's `Transcript`, curve25519-dalek's `Scalar` and
--     bulletproofs' `R1CSProof`, commitments, generators, constraint systems and verifier, with the
--     round trips and lengths that they document. External/Samples has instances for tests.
--   Errors: zkvm/src/errors.rs.
--   Encoding: zkvm/src/encoding.rs. A reader method takes the `SliceReader` and returns it anew.
--     Encoding/Reads has what the methods read, Encoding/Safe that they stay in bounds.
--   Merkle: zkvm/src/merkle.rs. `build_tree` recurses on the length of the list.
--     Merkle/Inclusion and Merkle/Binding are about the paths of inclusion.
--   Utreexo/Path, Utreexo/Nodes and Utreexo/Forest: zkvm/src/utreexo/path.rs, nodes.rs and
--     forest.rs; of the last `normalize` and `update` stand in Utreexo/Forest/Normalize and
--     the `Catchup` in Utreexo/Forest/Catchup. Utreexo/Trees is the specification of the forest:
--     the perfect trees that its roots commit to. Utreexo/Forest/Membership relates the two.
--     Utreexo/Nodes/Heaps is about the arena, Utreexo/Forest/Insertion about `insert` and
--     `delete_transient`.
--   Tx: zkvm/src/tx.rs, and the bytes of a signature from musig/src/signature.rs.
--   Items: the data of a program, from zkvm/src/ops.rs, program.rs, types.rs, contract.rs,
--     predicate.rs, constraints.rs and scalar_witness.rs, spacesuit/src/signed_integer.rs and
--     musig/src/key.rs. Items/Opcodes, Items/Encode, Items/Parse and Items/Decode have the code's
--     encoders and parsers, Items/Ids the id of a contract; Items/Lengths, Items/RoundTrip,
--     Items/Contracts and Items/Safe are about them, on the lemmas of Items/Pieces.
--     `zkvm_contracts` fills `Contracts`.
--   Taproot: the tree of a predicate's programs and its call proofs, from zkvm/src/predicate.rs,
--     with `PointOp` from zkvm/src/point_ops.rs. The points' operations are external. Taproot/Places
--     is about the order of the leaves, Taproot/Calls about the call proofs; Taproot/Codec encodes and
--     decodes them, Taproot/Positions and Taproot/RoundTrip are about that.
--   Stack: the items on the machine's stack and their casts, from zkvm/src/types.rs. Stack/Casts is
--     about the casts of encoded strings.
--   PointOps: zkvm/src/point_ops.rs. The factors that a batch draws at random, one for each operation,
--     are an argument. PointOps/Batches is about the batch.
--   Musig: the verification of signatures, from musig/src/signature.rs, context.rs and transcript.rs;
--     Musig/Deferred has musig/src/deferred_verification.rs, Musig/Multikey aggregated keys.
--   Spacesuit: spacesuit/src/range_proof.rs and value.rs, with mix.rs in Spacesuit/Mix, shuffle.rs in
--     Spacesuit/Shuffle and cloak.rs in Spacesuit/Gadget, which fills the interface `Cloak` that the
--     machine takes. Spacesuit/Order is about the order by flavor.
--   Constraints: zkvm/src/constraints.rs, the arithmetic of zkvm/src/scalar_witness.rs and, in
--     Constraints/Integers, that of spacesuit/src/signed_integer.rs, over the field of scalars and a
--     constraint system, which are external. Constraints/Eval is about evaluation;
--     Constraints/Flatten adds a constraint to a constraint system.
--   Vm: zkvm/src/vm.rs, generic over its delegate, a record. A method takes the machine and returns a
--     value with the machine after it. Vm/Arithmetic, Vm/Contracts and Vm/Calls have the instructions,
--     Vm/Steps the step and the run. Vm/Frames, Vm/Methods, Vm/Kept, Vm/Executed and Vm/Loops carry a
--     relation between machines through all of them, Vm/Inputs uses it; Vm/Linear and Vm/Empty invert
--     methods by Vm/Returns.
--   Verifier: zkvm/src/verifier.rs, with the machine's delegate. Verifier/Verified, Verifier/Chain,
--     Verifier/Progress and Verifier/Termination are about it. Verifier/Endless is a program that
--     calls itself, Verifier/Blocks a block that is verified.
--   Blockchain: zkvm/src/blockchain/block.rs, errors.rs and state.rs; `apply_block` and
--     `make_block` stand in Blockchain/State.
--
-- Functions have the names of the code in the modules of its files. A method with `&mut self`
-- returns the new state. Arrays of 32 bytes are lists of numbers. Integers are natural numbers, and
-- an addition on `u64` wraps as in a release build, by `% 2 ^ 64`, where the sum can pass the width,
-- and a shift by a depth or a length goes by the amount modulo the width. The levels of a forest,
-- by which it shifts too, are below 64.
--
-- Fuel: `join_roots` has 65 rounds, as each round of the code's `while` is one level higher and
-- there are 64 levels. `traverse` has twice the capacity of each root, which is more than the nodes
-- of a tree of that level, and each round takes a node off its stack. Both return `stuck` when the
-- fuel ends. The other loops are structural.
--
-- The loop of `VM::run` has no bound in the code: Verifier/Endless has a transaction for which no
-- fuel is enough. Its fuel is an argument, and `stuck` the outcome where it ends. Between calls of
-- programs the bytes of a program bound the steps.
--
-- Not modelled: the prover and the signing of transactions (zkvm/src/prover.rs); of spacesuit the
-- commitments of values; of musig signing and its protocol; the builder of programs; accounts,
-- keytree and token; and slidechain, which is a program of its own. External crates are parameters,
-- as are the random factors of a batch; that a constraint system or a curve is sound is not stated.
pub mod Prelude
pub mod External
pub mod Errors
pub mod Blockchain
pub mod Constraints
pub mod Encoding
pub mod Items
pub mod Taproot
pub mod Spacesuit
pub mod Stack
pub mod Vm
pub mod Verifier
pub mod PointOps
pub mod Musig
pub mod Merkle
pub mod Tx
pub mod Utreexo
