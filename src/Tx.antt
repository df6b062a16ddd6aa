-- ===== src/Tx.antt =====
-- zkvm/src/tx.rs: transactions, their logs, and their encoding; from musig/src/signature.rs the
-- signature that a transaction carries, and its bytes. The contracts of the log are those of a
-- `Contracts` interface, which stands for zkvm/src/contract.rs.
pub mod Codec
pub mod Safe
mod Runs
use zioncoin_poc.Prelude.{
  ℕ, ◌+◌, ◌*◌, String, Option, none, some, List, [], ◌∷◌, ◌++◌, length, take, drop,
}
use zioncoin_poc.Prelude.Result.{Result, ok, err}
use zioncoin_poc.Prelude.Bytes.{Bytes}
use zioncoin_poc.External.{LittleEndian, Merlin, Scalars, R1cs}
use zioncoin_poc.Errors.{VmError, format_error}
use zioncoin_poc.Encoding.{
  SliceReader, Reader, ◌>>=◌, pure, fail, parse, len, read_bytes, read_u8x64, read_u64, read_size,
  write_u64, write_size, Encodable, encode_to_vec,
}
use zioncoin_poc.Merkle.{MerkleItem, root}

-- `ContractID` (zkvm/src/contract.rs) and `TxID`: 32 bytes, as a `CompressedRistretto` is too.
pub record ContractId : Type 0 where
  pub id_bytes : Bytes

pub record TxId : Type 0 where
  pub tx_bytes : Bytes

-- What the log and the blockchain use of a contract.
pub record Contracts : Type 1 where
  pub Contract : Type 0
  pub id : Contract → ContractId

pub record TxHeader : Type 0 where
  pub version : ℕ
  pub mintime_ms : ℕ
  pub maxtime_ms : ℕ

pub data TxEntry ⦃contracts : Contracts⦄ : Type 0 where
  header : TxHeader → TxEntry
  issue : Bytes → Bytes → TxEntry
  retire : Bytes → Bytes → TxEntry
  input : ContractId → TxEntry
  output : contracts.Contract → TxEntry
  data_entry : Bytes → TxEntry

pub record VerifiedTx ⦃contracts : Contracts⦄ : Type 0 where
  pub header : TxHeader
  pub id : TxId
  pub log : List TxEntry

-- `musig::Signature`: the scalar `s` and the compressed nonce `R`
pub record Signature ⦃scalars : Scalars⦄ : Type 0 where
  pub s : scalars.Scalar
  pub nonce : Bytes

pub record Tx ⦃scalars : Scalars⦄ ⦃r1cs : R1cs⦄ : Type 0 where
  pub header : TxHeader
  pub program : Bytes
  pub signature : Signature
  pub proof : r1cs.R1csProof

pub record UnsignedTx ⦃contracts : Contracts⦄ ⦃r1cs : R1cs⦄ : Type 0 where
  pub header : TxHeader
  pub program : Bytes
  pub proof : r1cs.R1csProof
  pub txid : TxId
  pub txlog : List TxEntry
  pub signing_instructions : List (Bytes × ContractId)

module _ ⦃scalars : Scalars⦄ where
  -- `Signature::to_bytes`: both copies fill their half of the buffer.
  unfoldable pub signature_to_bytes : Signature → Bytes
  signature_to_bytes sig = sig.nonce ++ scalars.as_bytes sig.s

  -- `Signature::from_bytes`, its error as nothing
  unfoldable pub signature_from_bytes : Bytes → Option Signature
  signature_from_bytes sig = elim (scalars.from_canonical_bytes (drop 32 sig)) [
    | none ↦ none
    | some s ↦ some (record { s = s; nonce = take 32 sig })
  ]

-- `map_err(|_| VMError::FormatError)?`
unfoldable pub or_format_error {ℓ} : {A : Type ℓ} → Option A → Reader A
or_format_error none = fail format_error
or_format_error (some a) = pure a

module _ ⦃le : LittleEndian⦄ where
  unfoldable pub encode_header : TxHeader → Bytes → Bytes
  unfolding write_u64
  encode_header h buf = write_u64 h.maxtime_ms (write_u64 h.mintime_ms (write_u64 h.version buf))

  unfoldable pub decode_header : Reader TxHeader
  unfolding read_u64
  decode_header = do
    version ← read_u64
    mintime_ms ← read_u64
    maxtime_ms ← read_u64
    pure (record { version = version; mintime_ms = mintime_ms; maxtime_ms = maxtime_ms })

  abbrev pub header_serialized_length : TxHeader → ℕ
  header_serialized_length h = 8 * 3

  module _ ⦃scalars : Scalars⦄ ⦃r1cs : R1cs⦄ where
    unfoldable pub sign : ⦃contracts : Contracts⦄ → UnsignedTx → Signature → Tx
    sign tx signature = record {
      header = tx.header;
      program = tx.program;
      proof = tx.proof;
      signature = signature;
    }

    unfoldable pub encode : Tx → Bytes → Bytes
    unfolding encode_header write_size signature_to_bytes
    encode tx buf =
        let buf1 = write_size (length tx.program) (encode_header tx.header buf) in
        ((buf1 ++ tx.program) ++ signature_to_bytes tx.signature) ++ r1cs.to_bytes tx.proof

    unfoldable pub serialized_length : Tx → ℕ
    serialized_length tx =
        header_serialized_length tx.header
        + 4
        + length tx.program
        + 64
        + r1cs.serialized_size tx.proof

    -- `r.read_bytes(r.len())`
    unfoldable pub read_rest : Reader Bytes
    read_rest r = read_bytes (len r) r

    unfoldable pub decode : Reader Tx
    decode = do
      tx_header ← decode_header
      prog_len ← read_size
      program ← read_bytes prog_len
      sig ← read_u8x64
      signature ← or_format_error (signature_from_bytes sig)
      rest ← read_rest
      proof ← or_format_error (r1cs.from_bytes rest)
      let tx : Tx = record {
        header = tx_header;
        program = program;
        signature = signature;
        proof = proof;
      }
      pure tx

    instance abbrev pub tx_encodable : Encodable Tx
    tx_encodable = record { encode = encode; serialized_length = serialized_length }

    unfoldable pub to_bytes : Tx → Bytes
    unfolding encode_to_vec encode
    to_bytes tx = encode_to_vec tx

    unfoldable pub from_bytes : Bytes → Result VmError Tx
    unfolding parse decode
    from_bytes slice = parse slice decode

module _ ⦃merlin : Merlin⦄ where
  open merlin use {Transcript, append_message, append_u64}

  -- `TxID` as an item of the tree of a block's transactions
  instance abbrev pub txid_item : MerkleItem Transcript TxId
  txid_item = record { commit = λ x. append_message "txid" x.tx_bytes }

  -- zkvm/src/contract.rs: `ContractID` as an item of the forest
  instance abbrev pub contract_id_item : MerkleItem Transcript ContractId
  contract_id_item = record { commit = λ x. append_message "contract" x.id_bytes }

  module _ ⦃contracts : Contracts⦄ where
    unfoldable pub commit_entry : TxEntry → Transcript → Transcript
    commit_entry (header h) t =
        append_u64 "tx.maxtime" h.maxtime_ms
          (append_u64 "tx.mintime" h.mintime_ms (append_u64 "tx.version" h.version t))
    commit_entry (issue q f) t = append_message "issue.f" f (append_message "issue.q" q t)
    commit_entry (retire q f) t = append_message "retire.f" f (append_message "retire.q" q t)
    commit_entry (input contract) t = append_message "input" contract.id_bytes t
    commit_entry (output contract) t = append_message "output" (contracts.id contract).id_bytes t
    commit_entry (data_entry bytes) t = append_message "data" bytes t

    instance abbrev pub entry_item : MerkleItem Transcript TxEntry
    entry_item = record { commit = commit_entry }

    unfoldable pub from_log : List TxEntry → TxId
    unfolding root commit_entry
    from_log list = record { tx_bytes = root "ZkVM.txid" list }
