-- ===== src/Stack/Casts.antt =====
-- The casts of strings in zkvm/src/types.rs, on the bytes that a string is encoded to: what the
-- verifier gets of what the prover has.
use zioncoin_poc.Prelude.{◌≡◌, subst, append-nil}
use zioncoin_poc.Prelude.Result.{ok}
use zioncoin_poc.External.{LittleEndian, Scalars, Curve}
use zioncoin_poc.Encoding.{read_scalar, write_point, write_bytes}
use zioncoin_poc.Encoding.Reads.{Reads, Reads-bind, Reads-pure, Reads-read_u8x32, parse-Reads}
use zioncoin_poc.Items.{ScalarWitness, Commitment, Predicate, Contract, VmString}
use zioncoin_poc.Items.Encode.{
  to_scalar, encode_string, encode_predicate, encode_commitment, encode_scalar, predicate_to_point,
  commitment_to_point,
}
use zioncoin_poc.Items.Pieces.{Reads-read_point_array}
use zioncoin_poc.Items.Contracts.{ContractFits, contract_view, decode_contract-encode_contract}
use zioncoin_poc.Stack.{string_to_bytes, to_predicate, to_commitment, to_output, string_to_scalar}

module _ ⦃scalars : Scalars⦄ ⦃curve : Curve⦄ ⦃le : LittleEndian⦄ where
  -- A string of which only the bytes are kept
  abbrev pub as_bytes : VmString → VmString
  as_bytes str = VmString.opaque_bytes (string_to_bytes str)

  scalar-Reads :
      (s : scalars.Scalar) → Reads (read_scalar scalars.from_canonical_bytes) (scalars.as_bytes s) s
  unfolding read_scalar
  scalar-Reads s =
      subst (λ bytes. Reads (read_scalar scalars.from_canonical_bytes) bytes s)
        (append-nil (scalars.as_bytes s))
        (Reads-bind _ (Reads-read_u8x32 (scalars.as_bytes s) (scalars.length-as_bytes s))
          (rw (scalars.from_canonical_bytes-as_bytes s) (Reads-pure s)))

  predicate-cast :
      (p : Predicate)
      → to_predicate (as_bytes (VmString.predicate p))
        ≡ ok (Predicate.opaque_point (predicate_to_point p))
  unfolding to_predicate string_to_bytes encode_string encode_predicate write_point
  predicate-cast p = rw (parse-Reads (Reads-read_point_array (predicate_to_point p)))

  commitment-cast :
      (c : Commitment)
      → to_commitment (as_bytes (VmString.commitment c))
        ≡ ok (Commitment.closed (commitment_to_point c))
  unfolding to_commitment string_to_bytes encode_string encode_commitment write_point
  commitment-cast c = rw (parse-Reads (Reads-read_point_array (commitment_to_point c)))

  scalar-cast :
      (w : ScalarWitness)
      → string_to_scalar (as_bytes (VmString.scalar_witness w))
        ≡ ok (ScalarWitness.scalar (to_scalar w))
  unfolding string_to_scalar string_to_bytes encode_string encode_scalar write_bytes
  scalar-cast w = rw (parse-Reads (scalar-Reads (to_scalar w)))

  output-cast :
      (c : Contract)
      → ContractFits c
      → to_output (as_bytes (VmString.output_contract c)) ≡ ok (contract_view c)
  unfolding to_output string_to_bytes encode_string
  output-cast c fits = parse-Reads (decode_contract-encode_contract c fits)

  -- The casts of the bytes of a predicate, a commitment, a scalar and a contract whose lengths fit in
  -- 32 bits give what the verifier sees of each: the points, the scalar and the opaque contract.
  pub string_casts :
      (p : Predicate) (c : Commitment) (w : ScalarWitness) (contract : Contract)
      → ContractFits contract
      → (to_predicate (as_bytes (VmString.predicate p))
          ≡ ok (Predicate.opaque_point (predicate_to_point p)))
        × (to_commitment (as_bytes (VmString.commitment c))
            ≡ ok (Commitment.closed (commitment_to_point c)))
        × (string_to_scalar (as_bytes (VmString.scalar_witness w))
            ≡ ok (ScalarWitness.scalar (to_scalar w)))
        × (to_output (as_bytes (VmString.output_contract contract)) ≡ ok (contract_view contract))
  string_casts p c w contract fits =
      (predicate-cast p, commitment-cast c, scalar-cast w, output-cast contract fits)
