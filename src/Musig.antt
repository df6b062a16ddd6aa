-- ===== src/Musig.antt =====
-- musig/src/signature.rs, context.rs, transcript.rs and deferred_verification.rs: the verification of
-- a signature over one message and over several, as a deferred operation on points. A key with its
-- message is a pair.
pub mod Deferred
pub mod Multikey
mod Runs
use zioncoin_poc.Prelude.{ℕ, ◌+◌, String, none, some, List, [], ◌∷◌, length}
use zioncoin_poc.Prelude.Bytes.{Bytes, codes}
use zioncoin_poc.External.{Merlin, Scalars, Curve, ScalarField, PedersenGens}
use zioncoin_poc.Items.{Bytes32, VerificationKey}
use zioncoin_poc.Items.Arrays.{array_32}
use zioncoin_poc.Tx.{Signature}
use zioncoin_poc.Taproot.{PointOp, challenge_scalar}

module _ ⦃scalars : Scalars⦄ ⦃curve : Curve⦄ where
  pub record DeferredVerification : Type 0 where
    pub static_point_weight : scalars.Scalar
    pub dynamic_point_weights : List (scalars.Scalar × Bytes32)

  -- `Into<PointOp> for DeferredVerification`
  unfoldable pub into_point_op : DeferredVerification → PointOp
  into_point_op d = record {
    primary = some d.static_point_weight;
    secondary = none;
    arbitrary = d.dynamic_point_weights;
  }

  -- A key and its message, of the vector of a `Multimessage`
  abbrev pub Pairs : Type 0
  Pairs = List (VerificationKey × Bytes)

  module _ ⦃merlin : Merlin⦄ ⦃gens : PedersenGens⦄ ⦃field : ScalarField⦄ where
    open merlin use {Transcript, append_message, append_u64}

    unfoldable pub schnorr_sig_domain_sep : Transcript → Transcript
    schnorr_sig_domain_sep t = append_message "dom-sep" (codes "schnorr-signature v1") t

    unfoldable pub schnorr_multisig_domain_sep : ℕ → Transcript → Transcript
    schnorr_multisig_domain_sep n t =
        append_u64 "n" n (append_message "dom-sep" (codes "schnorr-multi-signature v1") t)

    unfoldable pub commit_point : String → Bytes32 → Transcript → Transcript
    commit_point label point t = append_message label point.bytes32 t

    -- The challenge of a signature over one message, which the transcript has already
    unfoldable pub single_challenge : VerificationKey → Bytes32 → Transcript → scalars.Scalar
    unfolding schnorr_sig_domain_sep commit_point challenge_scalar
    single_challenge key nonce t =
        challenge_scalar "c"
          (commit_point "R" nonce (commit_point "X" key.precompressed (schnorr_sig_domain_sep t)))

    -- `Signature::verify`
    unfoldable pub verify_signature :
        Signature → Transcript → VerificationKey → DeferredVerification
    unfolding single_challenge array_32
    verify_signature signature t key =
        let nonce = array_32 signature.nonce in
        let c = single_challenge key nonce t in
        record {
          static_point_weight = field.neg signature.s;
          dynamic_point_weights = (field.one, nonce) ∷ (c, key.precompressed) ∷ [];
        }

    -- `Multimessage::commit`, its loop first
    unfoldable pub commit_pairs : Pairs → Transcript → Transcript
    unfolding commit_point
    commit_pairs [] t = t
    commit_pairs ((key, message) ∷ pairs) t =
        commit_pairs pairs (append_message "m" message (commit_point "X" key.precompressed t))

    unfoldable pub commit_multimessage : Pairs → Transcript → Transcript
    unfolding schnorr_multisig_domain_sep commit_pairs
    commit_multimessage pairs t = commit_pairs pairs (schnorr_multisig_domain_sep (length pairs) t)

    -- `Multimessage::challenge`
    unfoldable pub multimessage_challenge : ℕ → Transcript → scalars.Scalar
    unfolding challenge_scalar
    multimessage_challenge i t = challenge_scalar "c" (append_u64 "i" i t)

    -- The loop of `verify_multi`, from the index `i` of the first of the pairs
    unfoldable pub weigh_keys : ℕ → Pairs → Transcript → List (scalars.Scalar × Bytes32)
    unfolding multimessage_challenge
    weigh_keys i [] t = []
    weigh_keys i ((key, message) ∷ pairs) t =
        (multimessage_challenge i t, key.precompressed) ∷ weigh_keys (i + 1) pairs t

    -- `Signature::verify_multi`
    unfoldable pub verify_multi : Signature → Transcript → Pairs → DeferredVerification
    unfolding commit_multimessage weigh_keys array_32
    verify_multi signature t pairs =
        let nonce = array_32 signature.nonce in
        let t' = commit_point "R" nonce (commit_multimessage pairs t) in
        record {
          static_point_weight = field.neg signature.s;
          dynamic_point_weights = (field.one, nonce) ∷ weigh_keys 0 pairs t';
        }
