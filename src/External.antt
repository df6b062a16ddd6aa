-- ===== src/External.antt =====
-- What the program takes from other crates: byteorder's `LittleEndian` and merlin's `Transcript`.
pub mod Samples
use zioncoin_poc.Prelude.{ℕ, ◌<◌, ◌^◌, ◌≡◌, String, Bool, Option, some, List, length}
use zioncoin_poc.Prelude.Bytes.{Bytes}
use zioncoin_poc.Prelude.Result.{Result}

-- `byteorder::LittleEndian`, with the documented round trips at the fixed widths.
pub record LittleEndian : Type 0 where
  pub write_u32 : ℕ → Bytes
  pub read_u32 : Bytes → ℕ
  pub write_u64 : ℕ → Bytes
  pub read_u64 : Bytes → ℕ
  pub length-write_u32 : (x : ℕ) → length (write_u32 x) ≡ 4
  pub length-write_u64 : (x : ℕ) → length (write_u64 x) ≡ 8
  pub read_u32-write_u32 : (x : ℕ) → x < 2 ^ 32 → read_u32 (write_u32 x) ≡ x
  pub read_u64-write_u64 : (x : ℕ) → x < 2 ^ 64 → read_u64 (write_u64 x) ≡ x

-- `merlin::Transcript`. `challenge_bytes` fills a buffer of the given length.
pub record Merlin : Type 1 where
  pub Transcript : Type 0
  pub new : String → Transcript
  pub append_message : String → Bytes → Transcript → Transcript
  pub append_u64 : String → ℕ → Transcript → Transcript
  pub challenge_bytes : String → ℕ → Transcript → Bytes × Transcript

-- `curve25519_dalek::scalar::Scalar`: its 32 bytes, and the check that bytes are canonical.
pub record Scalars : Type 1 where
  pub Scalar : Type 0
  pub as_bytes : Scalar → Bytes
  pub from_canonical_bytes : Bytes → Option Scalar
  pub length-as_bytes : (s : Scalar) → length (as_bytes s) ≡ 32
  pub from_canonical_bytes-as_bytes : (s : Scalar) → from_canonical_bytes (as_bytes s) ≡ some s

-- `bulletproofs::r1cs::R1CSProof`, with the error of its parser dropped.
pub record R1cs : Type 1 where
  pub R1csProof : Type 0
  pub to_bytes : R1csProof → Bytes
  pub from_bytes : Bytes → Option R1csProof
  pub serialized_size : R1csProof → ℕ
  pub length-to_bytes : (p : R1csProof) → length (to_bytes p) ≡ serialized_size p
  pub from_bytes-to_bytes : (p : R1csProof) → from_bytes (to_bytes p) ≡ some p

-- curve25519-dalek's points and bulletproofs' Pedersen generators, and the arithmetic of scalars.
pub record Curve ⦃scalars : Scalars⦄ : Type 1 where
  pub Point : Type 0
  pub compress : Point → Bytes
  pub length-compress : (p : Point) → length (compress p) ≡ 32
  pub commit : scalars.Scalar → scalars.Scalar → Point
  pub zero : scalars.Scalar
  pub from_u64 : ℕ → scalars.Scalar
  pub sub : scalars.Scalar → scalars.Scalar → scalars.Scalar

-- The field operations of `Scalar`, and its equality.
pub record ScalarField ⦃scalars : Scalars⦄ : Type 0 where
  pub one : scalars.Scalar
  pub neg : scalars.Scalar → scalars.Scalar
  pub add : scalars.Scalar → scalars.Scalar → scalars.Scalar
  pub mul : scalars.Scalar → scalars.Scalar → scalars.Scalar
  pub equal : scalars.Scalar → scalars.Scalar → Bool
  pub invert : scalars.Scalar → scalars.Scalar
  pub mul_comm : (a b : scalars.Scalar) → mul a b ≡ mul b a

-- `bulletproofs::r1cs`: variables, the variable that stands for one, and a constraint system in which
-- a multiplier can be allocated.
pub record ConstraintSystem ⦃scalars : Scalars⦄ : Type 1 where
  pub Variable : Type 0
  pub variable_one : Variable
  pub System : Type 0
  pub multiply_gate :
      List (Variable × scalars.Scalar)
      → List (Variable × scalars.Scalar)
      → System
      → Variable × System

-- The generators of bulletproofs' `PedersenGens`, the operations of points, and a scalar from 64
-- bytes. A point is decompressed or refused; a product over points fails where one is missing.
pub record PedersenGens ⦃scalars : Scalars⦄ ⦃curve : Curve⦄ : Type 0 where
  pub base : curve.Point
  pub base_blinding : curve.Point
  pub point_add : curve.Point → curve.Point → curve.Point
  pub point_mul : scalars.Scalar → curve.Point → curve.Point
  pub from_bytes_mod_order_wide : Bytes → scalars.Scalar
  pub decompress : Bytes → Option curve.Point
  pub optional_multiscalar_mul :
      List scalars.Scalar → List (Option curve.Point) → Option curve.Point
  pub identity : curve.Point
  pub is_identity : curve.Point → Bool

-- The rest of `bulletproofs::r1cs`: `allocate` and `constrain` of a constraint system, the phase after
-- its commitments, in which challenges are drawn, and a callback for that phase. `none` is an
-- `R1CSError`.
pub record RandomizableSystem ⦃scalars : Scalars⦄ ⦃cs : ConstraintSystem⦄ : Type 1 where
  pub allocate : Option scalars.Scalar → cs.System → Option (cs.Variable × cs.System)
  pub constrain : List (cs.Variable × scalars.Scalar) → cs.System → cs.System
  pub allocate_pair :
      Option (scalars.Scalar × scalars.Scalar)
      → cs.System
      → Option ((cs.Variable × cs.Variable × cs.Variable) × cs.System)
  pub Randomized : Type 0
  pub challenge_scalar : String → Randomized → scalars.Scalar × Randomized
  pub multiply_randomized :
      List (cs.Variable × scalars.Scalar)
      → List (cs.Variable × scalars.Scalar)
      → Randomized
      → (cs.Variable × cs.Variable × cs.Variable) × Randomized
  pub allocate_multiplier :
      Option (scalars.Scalar × scalars.Scalar)
      → Randomized
      → Option ((cs.Variable × cs.Variable × cs.Variable) × Randomized)
  pub constrain_randomized : List (cs.Variable × scalars.Scalar) → Randomized → Randomized
  pub specify_randomized_constraints :
      (Randomized → Result (Unit {0}) Randomized) → cs.System → Option cs.System

-- `r1cs::Verifier`: a constraint system on a transcript, to which commitments are added, and the
-- check of a proof, with the generators fixed.
pub record R1csVerifier ⦃scalars : Scalars⦄ ⦃cs : ConstraintSystem⦄ ⦃merlin : Merlin⦄ ⦃r1cs : R1cs⦄
    : Type 0 where
  pub new_verifier : merlin.Transcript → cs.System
  pub commit : Bytes → cs.System → cs.Variable × cs.System
  pub append_to_transcript : String → Bytes → cs.System → cs.System
  pub verify : r1cs.R1csProof → cs.System → Bool
