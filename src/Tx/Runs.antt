-- ===== src/Tx/Runs.antt =====
-- Runs of the encoding of transactions, with sample scalars and proofs.
use zioncoin_poc.Prelude.{◌≡◌, ◌≢◌, refl, [], ◌∷◌, arith, length, replicate}
use zioncoin_poc.Prelude.Result.{ok, panic}
use zioncoin_poc.External.Samples.{le_sample, scalars_sample, r1cs_sample}
use zioncoin_poc.Tx.{Tx, to_bytes, from_bytes, serialized_length}
use zioncoin_poc.Tx.Codec.{TxFits, from_bytes-to_bytes, length-to_bytes}
use zioncoin_poc.Tx.Safe.{from_bytes-ne-panic}

abbrev some_tx : Tx
some_tx = record {
  header = record { version = 1; mintime_ms = 1000; maxtime_ms = 2000 };
  program = 2 ∷ 4 ∷ 1 ∷ 0 ∷ 0 ∷ 0 ∷ [];
  signature = record { s = 7; nonce = replicate 32 9 };
  proof = 1 ∷ 2 ∷ 3 ∷ [];
}

some_tx-TxFits : TxFits some_tx
some_tx-TxFits = record {
  header = record { version = omega arith; mintime_ms = omega arith; maxtime_ms = omega arith };
  program = omega arith;
  nonce = refl;
}

from_bytes-to_bytes_example : from_bytes (to_bytes some_tx) ≡ ok some_tx
from_bytes-to_bytes_example = from_bytes-to_bytes some_tx some_tx-TxFits

length-to_bytes_example : length (to_bytes some_tx) ≡ serialized_length some_tx
length-to_bytes_example = length-to_bytes some_tx some_tx-TxFits

from_bytes-ne-panic_example : from_bytes (1 ∷ 2 ∷ 3 ∷ []) ≢ panic
from_bytes-ne-panic_example = from_bytes-ne-panic (1 ∷ 2 ∷ 3 ∷ [])
