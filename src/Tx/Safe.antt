-- ===== src/Tx/Safe.antt =====
-- No bytes make the parser of transactions panic.
use zioncoin_poc.Prelude.{◌≢◌, Option, none, some}
use zioncoin_poc.Prelude.Result.{panic}
use zioncoin_poc.Prelude.Bytes.{Bytes}
use zioncoin_poc.External.{LittleEndian, Scalars, R1cs}
use zioncoin_poc.Encoding.{len}
use zioncoin_poc.Encoding.Safe.{
  IsSafe, bind-IsSafe, pure-IsSafe, fail-IsSafe, read_bytes-IsSafe, read_u8x64-IsSafe,
  read_u64-IsSafe, read_size-IsSafe, parse-ne-panic,
}
use zioncoin_poc.Tx.{
  signature_from_bytes, or_format_error, decode_header, read_rest, decode, from_bytes,
}

or_format_error-IsSafe {ℓ} : {A : Type ℓ} (o : Option A) → IsSafe (or_format_error o)
unfolding or_format_error
or_format_error-IsSafe none = fail-IsSafe _
or_format_error-IsSafe (some a) = pure-IsSafe a

module _ ⦃le : LittleEndian⦄ where
  decode_header-IsSafe : IsSafe decode_header
  unfolding decode_header
  decode_header-IsSafe = bind-IsSafe _ _ read_u64-IsSafe (λ version.
      bind-IsSafe _ _ read_u64-IsSafe
        (λ mintime_ms. bind-IsSafe _ _ read_u64-IsSafe (λ maxtime_ms. pure-IsSafe _)))

  module _ ⦃scalars : Scalars⦄ ⦃r1cs : R1cs⦄ where
    read_rest-IsSafe : IsSafe read_rest
    unfolding read_rest
    read_rest-IsSafe = record { from = λ r v. (read_bytes-IsSafe (len r)).from r v }

    decode-IsSafe : IsSafe decode
    unfolding decode
    decode-IsSafe = bind-IsSafe _ _ decode_header-IsSafe (λ header.
        bind-IsSafe _ _ read_size-IsSafe (λ prog_len.
          bind-IsSafe _ _ (read_bytes-IsSafe prog_len) (λ program.
            bind-IsSafe _ _ read_u8x64-IsSafe (λ sig.
              bind-IsSafe _ _ (or_format_error-IsSafe (signature_from_bytes sig)) (λ signature.
                bind-IsSafe _ _ read_rest-IsSafe (λ rest.
                  bind-IsSafe _ _ (or_format_error-IsSafe (r1cs.from_bytes rest))
                    (λ proof. pure-IsSafe _)))))))

    -- No bytes make `from_bytes` panic: every read is in bounds.
    pub from_bytes-ne-panic : (slice : Bytes) → from_bytes slice ≢ panic
    unfolding from_bytes
    from_bytes-ne-panic slice = parse-ne-panic slice decode decode-IsSafe
