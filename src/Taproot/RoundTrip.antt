-- ===== src/Taproot/RoundTrip.antt =====
-- A call proof is decoded from its encoding.
use native.Mathlib.Nat.{pow-le-pow_right, pow-suc, div-div-eq-div-mul, mul_comm, div-one}
use zioncoin_poc.Prelude.{
  ℕ, suc, ◌+◌, ◌-◌, ◌*◌, ◌/◌, ◌^◌, ◌≤◌, ◌<◌, ◌≡◌, ◌==◌, false, sym, ap, ◌∙◌, some, List, [], ◌∷◌,
  ◌++◌, arith, append-nil, append_assoc, length,
}
use zioncoin_poc.Prelude.Bytes.{Bytes}
use zioncoin_poc.External.{LittleEndian, Scalars, Curve, PedersenGens}
use zioncoin_poc.Encoding.{write_bytes, write_point, write_u32}
use zioncoin_poc.Encoding.Reads.{
  Reads, Reads-bind, Reads-then, Reads-pure, Reads-read_u32, Reads-read_u8x32,
}
use zioncoin_poc.Merkle.{MerkleNeighbor, left, right}
use zioncoin_poc.Items.Pieces.{Reads-read_point_array}
use zioncoin_poc.Utreexo.Trees.Slots.{pow-add_one, pow_pos}
use zioncoin_poc.Taproot.{CallProof}
use zioncoin_poc.Taproot.Codec.{
  bit_is_clear, neighbor_at, read_neighbors, write_neighbors, leading_zeros, encode_callproof,
  decode_callproof, or_invalid_point,
}
use zioncoin_poc.Taproot.Positions.{
  packed, packed-lower, packed-upper, positions_of-packed, leading_zeros-power,
}

-- Every hash has 32 bytes.
unfoldable pub NeighborsFit : List MerkleNeighbor → Type 0
NeighborsFit [] = Unit {0}
NeighborsFit (left l ∷ neighbors) = (length l ≡ 32) × NeighborsFit neighbors
NeighborsFit (right r ∷ neighbors) = (length r ≡ 32) × NeighborsFit neighbors

-- The hashes, one after another
neighbor_bytes : List MerkleNeighbor → Bytes
neighbor_bytes [] = []
neighbor_bytes (left l ∷ neighbors) = l ++ neighbor_bytes neighbors
neighbor_bytes (right r ∷ neighbors) = r ++ neighbor_bytes neighbors

write_neighbors-appends :
    (neighbors : List MerkleNeighbor) (buf : Bytes)
    → write_neighbors neighbors buf ≡ buf ++ neighbor_bytes neighbors
unfolding write_neighbors write_bytes neighbor_bytes
write_neighbors-appends [] buf = rw append-nil
write_neighbors-appends (left l ∷ ns) buf =
    write_neighbors-appends ns (buf ++ l) ∙ append_assoc buf l (neighbor_bytes ns)
write_neighbors-appends (right r ∷ ns) buf =
    write_neighbors-appends ns (buf ++ r) ∙ append_assoc buf r (neighbor_bytes ns)

shifted : (positions i : ℕ) → positions / 2 ^ (i + 1) ≡ positions / 2 ^ i / 2
shifted positions i =
    ap (λ m. positions / m) (pow-add_one i ∙ mul_comm 2 (2 ^ i))
    ∙ sym (div-div-eq-div-mul positions (2 ^ i) 2)

neighbor_at-left :
    (positions i q : ℕ) (bytes : Bytes)
    → positions / 2 ^ i ≡ 2 * q
    → neighbor_at positions i bytes ≡ left bytes
unfolding neighbor_at bit_is_clear
neighbor_at-left positions i q bytes h = rw h (ground arith)

neighbor_at-right :
    (positions i q : ℕ) (bytes : Bytes)
    → positions / 2 ^ i ≡ 1 + 2 * q
    → neighbor_at positions i bytes ≡ right bytes
unfolding neighbor_at bit_is_clear
neighbor_at-right positions i q bytes h = rw h (ground arith)

module _ (positions i : ℕ) (bytes : Bytes) (n : MerkleNeighbor) (ns : List MerkleNeighbor) where
  -- A hash whose bit gives its side
  Reads-neighbor :
      length bytes ≡ 32
      → neighbor_at positions i bytes ≡ n
      → Reads (read_neighbors positions (i + 1) (length ns)) (neighbor_bytes ns) ns
      → Reads (read_neighbors positions i (suc (length ns))) (bytes ++ neighbor_bytes ns) (n ∷ ns)
  unfolding read_neighbors
  Reads-neighbor h side rest =
      Reads-bind _ (Reads-read_u8x32 bytes h)
        (rw side (Reads-then (λ neighbors. n ∷ neighbors) rest))

Reads-read_neighbors :
    (positions i : ℕ) (neighbors : List MerkleNeighbor)
    → NeighborsFit neighbors
    → positions / 2 ^ i ≡ packed neighbors
    → Reads (read_neighbors positions i (length neighbors)) (neighbor_bytes neighbors) neighbors
unfolding NeighborsFit neighbor_bytes packed
Reads-read_neighbors positions i [] fits h = unfold read_neighbors in Reads-pure []
Reads-read_neighbors positions i (left l ∷ ns) (hl, fits) h =
    Reads-neighbor positions i l (left l) ns hl (neighbor_at-left positions i (packed ns) l h)
      (Reads-read_neighbors positions (i + 1) ns fits (shifted positions i ∙ rw h (omega arith)))
Reads-read_neighbors positions i (right r ∷ ns) (hr, fits) h =
    Reads-neighbor positions i r (right r) ns hr (neighbor_at-right positions i (packed ns) r h)
      (Reads-read_neighbors positions (i + 1) ns fits (shifted positions i ∙ rw h (omega arith)))

packed-lt_two_pow :
    (neighbors : List MerkleNeighbor) → length neighbors < 32 → packed neighbors < 2 ^ 32
packed-lt_two_pow ns bound =
    let le : 2 ^ suc (length ns) ≤ 2 ^ 32 = pow-le-pow_right (omega arith) bound in
    omega (arith, packed-upper ns, pow-suc 2 (length ns))

packed-ne_zero : (neighbors : List MerkleNeighbor) → (packed neighbors == 0) ≡ false
packed-ne_zero ns = ground (arith, packed-lower ns, pow_pos (length ns))

neighbor_count :
    (neighbors : List MerkleNeighbor)
    → length neighbors < 32
    → 31 - leading_zeros 32 (packed neighbors) ≡ length neighbors
neighbor_count ns bound = omega (
  arith,
  leading_zeros-power (length ns) 32 (packed ns) bound (packed-lower ns) (packed-upper ns),
)

module _ ⦃scalars : Scalars⦄ ⦃curve : Curve⦄ ⦃le : LittleEndian⦄ ⦃gens : PedersenGens⦄ where
  -- A call proof with at most 31 neighbors, whose hashes have 32 bytes each and whose key is the
  -- point that its bytes decompress to, is decoded from its encoding.
  pub decode_callproof-encode_callproof :
      (call_proof : CallProof)
      → length call_proof.neighbors < 32
      → NeighborsFit call_proof.neighbors
      → gens.decompress call_proof.verification_key.precompressed.bytes32
        ≡ some call_proof.verification_key.point
      → Reads decode_callproof (encode_callproof call_proof []) call_proof
  unfolding decode_callproof encode_callproof or_invalid_point write_point write_bytes write_u32
  decode_callproof-encode_callproof call_proof bound fits key =
      let ns = call_proof.neighbors in
      let k = call_proof.verification_key.precompressed in
      rw (write_neighbors-appends ns, positions_of-packed ns bound)
        (rw (append_assoc k.bytes32 (le.write_u32 (packed ns)) (neighbor_bytes ns)) (
          Reads-bind _ (Reads-read_point_array k) (
            rw key (
              Reads-bind _ (Reads-read_u32 (packed ns) (packed-lt_two_pow ns bound)) (
                rw (packed-ne_zero ns, neighbor_count ns bound)
                  (Reads-then (λ neighbors. record call_proof { neighbors = neighbors })
                    (Reads-read_neighbors (packed ns) 0 ns fits (div-one (packed ns)))))))))
