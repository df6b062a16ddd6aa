-- ===== src/Blockchain/Extends.antt =====
-- A block that a node makes is accepted by a node in the same state, and every accepted block
-- extends the chain by one.
use zioncoin_poc.Prelude.{
  ℕ, ◌+◌, ◌%◌, ◌^◌, ◌≤◌, ◌<◌, ◌≡◌, refl, subst, Bool, true, false, List, arith, ltb, leb, length,
  eq→==,
}
use zioncoin_poc.Prelude.Result.{ok, ◌>>◌, >>=-eq-ok, ok-injective}
use zioncoin_poc.Prelude.Bytes.{Bytes, bytes_eq_refl, bytes_eq→eq}
use zioncoin_poc.External.{Merlin, Scalars, R1cs}
use zioncoin_poc.Tx.{Contracts, Tx, VerifiedTx}
use zioncoin_poc.Utreexo.Path.{Proof}
use zioncoin_poc.Utreexo.Forest.{Forest, WorkForest, work_forest, root}
use zioncoin_poc.Utreexo.Forest.Catchup.{Catchup}
use zioncoin_poc.Utreexo.Forest.Normalize.{normalize}
use zioncoin_poc.Blockchain.{
  BlockOutcome, BlockchainError, inconsistent_header, BlockHeader, Verifier, Block, VerifiedBlock,
  BlockchainState, check, check_ext, check_block_header, next_height, id, id_eq, BlockId, lift,
}
use zioncoin_poc.Blockchain.State.{apply_txs, apply_block, make_block}

pub check-eq_ok : (b : Bool) (e : BlockchainError) → check b e ≡ ok tt → b ≡ true
check-eq_ok true e h = refl
check-eq_ok false e h = cc

-- What follows a passed check.
pub check->>-eq_ok {ℓ} :
    {A : Type ℓ} (b : Bool) (e : BlockchainError) (k : BlockOutcome A) {a : A}
    → (check b e >> k) ≡ ok a
    → (b ≡ true) × (k ≡ ok a)
check->>-eq_ok true e k h = (refl, h)
check->>-eq_ok false e k h = cc

module _ ⦃merlin : Merlin⦄ where
  -- A header passes the check against the previous one only if its version is no lower, its height
  -- is one more modulo 2 ^ 64, it names the previous one, its time is later, and, in version 1, it has no extension.
  pub check_block_header_extends :
      (h prev : BlockHeader)
      → check_block_header h prev ≡ ok tt
      → (prev.version ≤ h.version)
        × (h.height ≡ (prev.height + 1) % 2 ^ 64)
        × (h.prev ≡ id prev)
        × (prev.timestamp_ms < h.timestamp_ms)
        × (h.version ≡ 1 → length h.ext ≡ 0)
  unfolding check_block_header check_ext next_height id_eq
  check_block_header_extends h prev e =
      ground (arith, bytes_eq→eq h.prev.block_bytes (id prev).block_bytes)

  check_ext-eq_ok : (h : BlockHeader) → (h.version ≡ 1 → length h.ext ≡ 0) → check_ext h ≡ ok tt
  unfolding check_ext
  check_ext-eq_ok h ext = ground arith

  id_eq_lem : (a b : BlockId) → a ≡ b → id_eq a b ≡ true
  unfolding id_eq
  id_eq_lem a b e = rw e (bytes_eq_refl b.block_bytes)

  -- The other way round.
  check_block_header-next :
      (h prev : BlockHeader)
      → leb prev.version h.version ≡ true
      → h.height ≡ next_height prev
      → h.prev ≡ id prev
      → ltb prev.timestamp_ms h.timestamp_ms ≡ true
      → (h.version ≡ 1 → length h.ext ≡ 0)
      → check_block_header h prev ≡ ok tt
  unfolding check_block_header
  check_block_header-next h prev version height previous later ext = rw (
    version,
    check_ext-eq_ok h ext,
    eq→== h.height (next_height prev) height,
    id_eq_lem _ _ previous,
    later,
  )

module _ ⦃merlin : Merlin⦄ ⦃contracts : Contracts⦄ ⦃scalars : Scalars⦄ ⦃r1cs : R1cs⦄
    ⦃verifier : Verifier⦄ where
  module _ (state : BlockchainState) (block_version timestamp_ms : ℕ) (ext : Bytes) (txs : List Tx)
      (utxo_proofs : List Proof) where
    -- What `make_block` returns, from the results of its steps.
    made :
        (Bytes × List VerifiedTx) × WorkForest
        → Forest × Catchup
        → Block × VerifiedBlock × BlockchainState
    made r n =
        let header : BlockHeader = record {
          version = block_version;
          height = next_height state.tip;
          prev = id state.tip;
          timestamp_ms = timestamp_ms;
          txroot = r.0.0;
          utxoroot = root n.0;
          ext = ext;
        } in
        (
          record { header = header; txs = txs; all_utxo_proofs = utxo_proofs },
          record { header = header; txs = r.0.1 },
          record { initial_id = state.initial_id; tip = header; utreexo = n.0; catchup = n.1 },
        )

    record Made (result : Block × VerifiedBlock × BlockchainState) : Type 0 where
      version : leb state.tip.version block_version ≡ true
      later : ltb state.tip.timestamp_ms timestamp_ms ≡ true
      f : WorkForest
      opened : lift (work_forest state.utreexo) ≡ ok f
      r : (Bytes × List VerifiedTx) × WorkForest
      applied : apply_txs block_version timestamp_ms txs utxo_proofs f ≡ ok r
      n : Forest × Catchup
      normalized : lift (normalize r.1) ≡ ok n
      same : made r n ≡ result

    make_block-Made :
        (result : Block × VerifiedBlock × BlockchainState)
        → make_block state block_version timestamp_ms ext txs utxo_proofs ≡ ok result
        → Made result
    unfolding make_block made
    make_block-Made result e =
        let c1 = check->>-eq_ok (leb state.tip.version block_version) inconsistent_header _ e in
        let c2 =
          check->>-eq_ok (ltb state.tip.timestamp_ms timestamp_ms) inconsistent_header _ c1.1 in
        let (f, ef, e1) = >>=-eq-ok (lift (work_forest state.utreexo)) _ c2.1 in
        let (r, er, e2) = >>=-eq-ok (apply_txs block_version timestamp_ms txs utxo_proofs f) _ e1 in
        let (n, en, e3) = >>=-eq-ok (lift (normalize r.1)) _ e2 in
        record {
          version = c1.0;
          later = c2.0;
          f = f;
          opened = ef;
          r = r;
          applied = er;
          n = n;
          normalized = en;
          same = ok-injective e3;
        }

    Made-accepted :
        {result : Block × VerifiedBlock × BlockchainState} (m : Made result)
        → (block_version ≡ 1 → length ext ≡ 0)
        → let b = made m.r m.n in apply_block state b.0 ≡ ok (b.1, b.2)
    unfolding apply_block made
    Made-accepted m small =
        let header = (made m.r m.n).0.header in
        let passed : check_block_header header state.tip ≡ ok tt =
          check_block_header-next header state.tip m.version refl refl m.later small in
        rw (
          passed,
          m.opened,
          m.applied,
          bytes_eq_refl m.r.0.0,
          m.normalized,
          bytes_eq_refl (root m.n.0),
        )

    -- A block that `make_block` makes is accepted by `apply_block` in the same state, with the same
    -- verified block and the same new state, where a block of version 1 was given no extension.
    pub apply_block-make_block :
        {block : Block} {verified : VerifiedBlock} {new_state : BlockchainState}
        → (block_version ≡ 1 → length ext ≡ 0)
        → make_block state block_version timestamp_ms ext txs utxo_proofs
          ≡ ok (block, verified, new_state)
        → apply_block state block ≡ ok (verified, new_state)
    apply_block-make_block {block} {verified} {new_state} small e =
        let m = make_block-Made (block, verified, new_state) e in
        subst
          (λ (b : Block × VerifiedBlock × BlockchainState). apply_block state b.0 ≡ ok (b.1, b.2))
          m.same (Made-accepted m small)
