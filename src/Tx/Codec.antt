-- ===== src/Tx/Codec.antt =====
-- A transaction's bytes are read back as the transaction, and are as many as announced.
use zioncoin_poc.Prelude.{
  ℕ, ◌%◌, ◌^◌, ◌<◌, ◌≡◌, refl, Option, some, [], ◌++◌, arith, append_assoc, append-nil, length,
  length-append, take-append, drop-append,
}
use zioncoin_poc.Prelude.Result.{ok}
use zioncoin_poc.Prelude.Bytes.{Bytes}
use zioncoin_poc.External.{LittleEndian, Scalars, R1cs}
use zioncoin_poc.Encoding.{write_u64, write_u32, write_size, encode_to_vec}
use zioncoin_poc.Encoding.Reads.{
  Reads, Reads-bind, Reads-pure, Reads-read_bytes, Reads-read_u8x64, Reads-read_u64,
  Reads-read_size, ReadsAll, ReadsAll-bind, ReadsAll-then, ReadsAll-pure, parse-ReadsAll,
  len-reader_at,
}
use zioncoin_poc.Tx.{
  TxHeader, Signature, Tx, signature_to_bytes, signature_from_bytes, or_format_error, encode_header,
  decode_header, read_rest, encode, decode, serialized_length, to_bytes, from_bytes,
}

-- The fields of a header fit in 64 bits.
pub record HeaderFits (h : TxHeader) : Type 0 where
  pub version : h.version < 2 ^ 64
  pub mintime_ms : h.mintime_ms < 2 ^ 64
  pub maxtime_ms : h.maxtime_ms < 2 ^ 64

module _ ⦃scalars : Scalars⦄ where
  -- A signature with a nonce of 32 bytes is what `signature_from_bytes` makes of its bytes.
  pub signature_from_bytes-signature_to_bytes :
      (sig : Signature)
      → length sig.nonce ≡ 32
      → signature_from_bytes (signature_to_bytes sig) ≡ some sig
  unfolding signature_from_bytes signature_to_bytes
  signature_from_bytes-signature_to_bytes sig h = ground (
    arith,
    drop-append 32 sig.nonce (scalars.as_bytes sig.s) h,
    take-append 32 sig.nonce (scalars.as_bytes sig.s) h,
    scalars.from_canonical_bytes-as_bytes sig.s,
  )

  length-signature_to_bytes :
      (sig : Signature) → length sig.nonce ≡ 32 → length (signature_to_bytes sig) ≡ 64
  unfolding signature_to_bytes
  length-signature_to_bytes sig h =
      omega (arith, length-append sig.nonce (scalars.as_bytes sig.s), scalars.length-as_bytes sig.s)

Reads-or_format_error {ℓ} :
    {A : Type ℓ} (o : Option A) {a : A} → o ≡ some a → Reads (or_format_error o) [] a
unfolding or_format_error
Reads-or_format_error o {a} e = rw e (Reads-pure a)

module _ ⦃le : LittleEndian⦄ where
  header_bytes : TxHeader → Bytes
  header_bytes h =
      le.write_u64 h.version ++ (le.write_u64 h.mintime_ms ++ (le.write_u64 h.maxtime_ms ++ []))

  Reads-decode_header : (h : TxHeader) → HeaderFits h → Reads decode_header (header_bytes h) h
  unfolding decode_header header_bytes
  Reads-decode_header h fits = Reads-bind _ (Reads-read_u64 h.version fits.version) (
      Reads-bind _ (Reads-read_u64 h.mintime_ms fits.mintime_ms)
        (Reads-bind _ (Reads-read_u64 h.maxtime_ms fits.maxtime_ms) (Reads-pure h)))

  module _ ⦃scalars : Scalars⦄ ⦃r1cs : R1cs⦄ where
    -- What every transaction of the program has: machine integers, a program of less than 4 GiB,
    -- and a compressed point.
    pub record TxFits (tx : Tx) : Type 0 where
      pub header : HeaderFits tx.header
      pub program : length tx.program < 2 ^ 32
      pub nonce : length tx.signature.nonce ≡ 32

    -- The bytes of a transaction, in the order they are read.
    tx_bytes : Tx → Bytes
    tx_bytes tx =
        header_bytes tx.header
        ++ (le.write_u32 (length tx.program)
            ++ (tx.program ++ (signature_to_bytes tx.signature ++ r1cs.to_bytes tx.proof)))

    to_bytes-eq-tx_bytes : (tx : Tx) → TxFits tx → to_bytes tx ≡ tx_bytes tx
    unfolding to_bytes tx_bytes header_bytes encode_to_vec encode encode_header write_u64 write_size
        write_u32
    to_bytes-eq-tx_bytes tx fits =
        let small : length tx.program % 2 ^ 32 ≡ length tx.program = omega (arith, fits.program) in
        rw small (simp append_assoc)

    ReadsAll-read_rest : (xs : Bytes) → ReadsAll read_rest xs xs
    unfolding read_rest
    ReadsAll-read_rest xs = record {
      all = λ front.
          rw (len-reader_at front xs)
            (rw append-nil at ((Reads-read_bytes xs (length xs) refl).at front []));
    }

    ReadsAll-decode : (tx : Tx) → TxFits tx → ReadsAll decode (tx_bytes tx) tx
    unfolding decode tx_bytes
    ReadsAll-decode tx fits = ReadsAll-bind _ (Reads-decode_header tx.header fits.header) (
        ReadsAll-bind _ (Reads-read_size (length tx.program) fits.program) (
          ReadsAll-bind _ (Reads-read_bytes tx.program (length tx.program) refl) (
            ReadsAll-bind _
              (Reads-read_u8x64 (signature_to_bytes tx.signature)
                (length-signature_to_bytes tx.signature fits.nonce))
              (ReadsAll-bind _
                (Reads-or_format_error (signature_from_bytes (signature_to_bytes tx.signature))
                  (signature_from_bytes-signature_to_bytes tx.signature fits.nonce))
                (ReadsAll-then _ (ReadsAll-read_rest (r1cs.to_bytes tx.proof)) (
                  ReadsAll-bind _
                    (Reads-or_format_error (r1cs.from_bytes (r1cs.to_bytes tx.proof))
                      (r1cs.from_bytes-to_bytes tx.proof))
                    (ReadsAll-pure tx)))))))

    -- A transaction is read back from its bytes.
    pub from_bytes-to_bytes : (tx : Tx) → TxFits tx → from_bytes (to_bytes tx) ≡ ok tx
    unfolding from_bytes
    from_bytes-to_bytes tx fits =
        rw (to_bytes-eq-tx_bytes tx fits) (parse-ReadsAll (ReadsAll-decode tx fits))

    -- The bytes of a transaction are as many as `serialized_length` says.
    pub length-to_bytes : (tx : Tx) → TxFits tx → length (to_bytes tx) ≡ serialized_length tx
    unfolding serialized_length tx_bytes header_bytes
    length-to_bytes tx fits = rw (to_bytes-eq-tx_bytes tx fits) (
        omega (
          arith,
          length-append {A = ℕ},
          le.length-write_u64,
          le.length-write_u32,
          length-signature_to_bytes tx.signature fits.nonce,
          r1cs.length-to_bytes tx.proof,
        ))
