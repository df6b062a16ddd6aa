-- ===== src/Taproot/Codec.antt =====
-- zkvm/src/predicate.rs: the encoding of call proofs. Bit `i` of `positions` tells on which side the
-- neighbor `i` stands, and the highest bit how many there are.
use zioncoin_poc.Prelude.{
  Bool, ℕ, zero, suc, ◌+◌, ◌-◌, ◌*◌, ◌/◌, ◌%◌, ◌^◌, none, some, Option, List, [], ◌∷◌, leb, ◌==◌,
  if◌then◌else◌, length,
}
use zioncoin_poc.Prelude.Bytes.{Bytes}
use zioncoin_poc.External.{LittleEndian, Scalars, Curve, PedersenGens}
use zioncoin_poc.Errors.{format_error, invalid_point}
use zioncoin_poc.Encoding.{
  Reader, ◌>>=◌, ◌>>◌, pure, fail, read_u32, read_u8x32, write_u32, write_bytes, write_point,
}
use zioncoin_poc.Merkle.{MerkleNeighbor, left, right}
use zioncoin_poc.Items.{Bytes32, VerificationKey}
use zioncoin_poc.Items.Decode.{read_point_array}
use zioncoin_poc.Taproot.{CallProof}

-- `positions | (1 << i)` and `positions & (1 << i) == 0`, on a `u32`
unfoldable pub set_bit : ℕ → ℕ → ℕ
set_bit positions i = if positions / 2 ^ i % 2 == 0 then positions + 2 ^ i else positions

unfoldable pub bit_is_clear : ℕ → ℕ → Bool
bit_is_clear positions i = positions / 2 ^ i % 2 == 0

-- `u32::leading_zeros`, of a number below `2 ^ width`
unfoldable pub leading_zeros : ℕ → ℕ → ℕ
leading_zeros zero positions = 0
leading_zeros (suc width) positions =
    if leb (2 ^ width) positions then 0 else 1 + leading_zeros width positions

-- The first loop of `encode`. A shift of a `u32` goes by the amount modulo 32.
unfoldable pub positions_from : ℕ → List MerkleNeighbor → ℕ → ℕ
unfolding set_bit
positions_from i [] positions = positions
positions_from i (left l ∷ neighbors) positions = positions_from (i + 1) neighbors positions
positions_from i (right r ∷ neighbors) positions =
    positions_from (i + 1) neighbors (set_bit positions (i % 32))

unfoldable pub positions_of : List MerkleNeighbor → ℕ
unfolding positions_from
positions_of neighbors = positions_from 0 neighbors (2 ^ (length neighbors % 32))

-- The second loop of `encode`
unfoldable pub write_neighbors : List MerkleNeighbor → Bytes → Bytes
write_neighbors [] buf = buf
write_neighbors (left l ∷ neighbors) buf = write_neighbors neighbors (write_bytes l buf)
write_neighbors (right r ∷ neighbors) buf = write_neighbors neighbors (write_bytes r buf)

unfoldable pub neighbor_at : ℕ → ℕ → Bytes → MerkleNeighbor
unfolding bit_is_clear
neighbor_at positions i bytes = if bit_is_clear positions i then left bytes else right bytes

-- The loop of `decode`: `count` neighbors, the first of them with the bit `i`
unfoldable pub read_neighbors : ℕ → ℕ → ℕ → Reader (List MerkleNeighbor)
unfolding neighbor_at
read_neighbors positions i zero = pure []
read_neighbors positions i (suc count) = do
  bytes ← read_u8x32
  neighbors ← read_neighbors positions (i + 1) count
  pure (neighbor_at positions i bytes ∷ neighbors)

module _ ⦃scalars : Scalars⦄ ⦃curve : Curve⦄ ⦃le : LittleEndian⦄ where
  -- `Encodable for CallProof`
  unfoldable pub encode_callproof : CallProof → Bytes → Bytes
  unfolding positions_of write_neighbors
  encode_callproof call_proof buf =
      let buf = write_point call_proof.verification_key.precompressed.bytes32 buf in
      write_neighbors call_proof.neighbors (write_u32 (positions_of call_proof.neighbors) buf)

  unfoldable pub callproof_length : CallProof → ℕ
  callproof_length call_proof = 32 + 4 + length call_proof.neighbors * 32

  -- `VerificationKey::from_compressed(..).ok_or(VMError::InvalidPoint)?`
  unfoldable pub or_invalid_point : Bytes32 → Option curve.Point → Reader VerificationKey
  or_invalid_point p none = fail invalid_point
  or_invalid_point p (some point) = pure (record { point = point; precompressed = p })

  module _ ⦃gens : PedersenGens⦄ where
    -- `CallProof::decode`
    unfoldable pub decode_callproof : Reader CallProof
    unfolding or_invalid_point leading_zeros read_neighbors
    decode_callproof = do
      p ← read_point_array
      key ← or_invalid_point p (gens.decompress p.bytes32)
      positions ← read_u32
      (if positions == 0 then fail format_error else pure tt)
      neighbors ← read_neighbors positions 0 (31 - leading_zeros 32 positions)
      pure (record { verification_key = key; neighbors = neighbors })
