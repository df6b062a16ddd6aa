-- ===== src/Musig/Multikey.antt =====
-- musig/src/context.rs: a key that aggregates several, as a context of signatures.
use zioncoin_poc.Prelude.{ℕ, ◌+◌, Option, none, some, List, [], ◌∷◌, length, get_elem?}
use zioncoin_poc.Prelude.Result.{Result, ok, err, unwrap}
use zioncoin_poc.External.{Merlin, Scalars, Curve, ScalarField, PedersenGens}
use zioncoin_poc.Items.{VerificationKey}
use zioncoin_poc.Taproot.{challenge_scalar, key_from}
use zioncoin_poc.Musig.{schnorr_sig_domain_sep, commit_point}
use zioncoin_poc.Musig.Deferred.{MusigError}

module _ ⦃scalars : Scalars⦄ ⦃curve : Curve⦄ ⦃merlin : Merlin⦄ ⦃gens : PedersenGens⦄
    ⦃field : ScalarField⦄ where
  open merlin use {Transcript, append_u64}

  pub record Multikey : Type 0 where
    pub prf : Option Transcript
    pub aggregated_key : VerificationKey
    pub public_keys : List VerificationKey

  -- `Multikey::compute_factor`
  unfoldable pub compute_factor : Transcript → ℕ → scalars.Scalar
  unfolding challenge_scalar
  compute_factor prf i = challenge_scalar "a_i" (append_u64 "i" i prf)

  unfoldable pub commit_keys : List VerificationKey → Transcript → Transcript
  unfolding commit_point
  commit_keys [] t = t
  commit_keys (key ∷ keys) t = commit_keys keys (commit_point "X" key.precompressed t)

  -- The loop that sums the keys, from the index of the first
  unfoldable pub sum_keys : Transcript → ℕ → List VerificationKey → curve.Point → curve.Point
  unfolding compute_factor
  sum_keys prf i [] aggregated = aggregated
  sum_keys prf i (key ∷ keys) aggregated =
      sum_keys prf (i + 1) keys
        (gens.point_add aggregated (gens.point_mul (compute_factor prf i) key.point))

  -- `Multikey::new`
  unfoldable pub new_multikey : List VerificationKey → Result MusigError Multikey
  unfolding commit_keys sum_keys key_from
  new_multikey [] = err MusigError.bad_arguments
  new_multikey (key ∷ []) = ok (record { prf = none; aggregated_key = key; public_keys = key ∷ [] })
  new_multikey (key ∷ second ∷ keys) =
      let pubkeys = key ∷ second ∷ keys in
      let prf =
        commit_keys pubkeys (append_u64 "n" (length pubkeys) (merlin.new "Musig.aggregated-key")) in
      ok (record {
        prf = some prf;
        aggregated_key = key_from (sum_keys prf 0 pubkeys gens.identity);
        public_keys = pubkeys;
      })

  -- `MusigContext for Multikey`
  unfoldable pub commit_multikey : Multikey → Transcript → Transcript
  unfolding schnorr_sig_domain_sep commit_point
  commit_multikey context t =
      commit_point "X" context.aggregated_key.precompressed (schnorr_sig_domain_sep t)

  unfoldable pub factor_of : Option Transcript → ℕ → scalars.Scalar
  factor_of none i = field.one
  factor_of (some t) i = compute_factor t i

  unfoldable pub multikey_challenge : Multikey → ℕ → Transcript → scalars.Scalar
  unfolding factor_of challenge_scalar
  multikey_challenge context i t = field.mul (challenge_scalar "c" t) (factor_of context.prf i)

  unfoldable pub multikey_key : Multikey → ℕ → Result MusigError VerificationKey
  multikey_key context index = unwrap (get_elem? context.public_keys index)
