-- ===== src/Vm/Inputs.antt =====
-- What a run of zkvm/src/vm.rs leaves behind: the log only grows, the bounds of the time stay, and
-- an anchor is there only after an input was logged.
use zioncoin_poc.Prelude.{
  ℕ, ◌≡◌, refl, sym, ap, ◌∙◌, Bool, true, false, ◌||◌, Option, none, some, List, [], ◌∷◌, ◌++◌,
  append-nil, append_assoc, arith,
}
use zioncoin_poc.Prelude.Result.{Result, ok, err, panic, stuck}
use zioncoin_poc.External.{
  LittleEndian, Merlin, Scalars, Curve, ScalarField, ConstraintSystem, RandomizableSystem,
  PedersenGens,
}
use zioncoin_poc.Errors.{VmError}
use zioncoin_poc.Tx.{TxId, TxEntry, header, issue, retire, input, output, data_entry, from_log}
use zioncoin_poc.Items.{Bytes32}
use zioncoin_poc.Items.Ids.{zkvm_contracts}
use zioncoin_poc.Spacesuit.{Cloak}
use zioncoin_poc.Vm.{Delegate, Vm}
use zioncoin_poc.Vm.Frames.{Framed}
use zioncoin_poc.Vm.Executed.{RunsFree}
use zioncoin_poc.Vm.Loops.{run_loop-Keeps}
use zioncoin_poc.Vm.Steps

module _ ⦃scalars : Scalars⦄ ⦃curve : Curve⦄ ⦃merlin : Merlin⦄ ⦃le : LittleEndian⦄ where
  -- Some entry of the log is an input.
  unfoldable pub has_input : List TxEntry → Bool
  has_input [] = false
  has_input (input id ∷ log) = true
  has_input (header h ∷ log) = has_input log
  has_input (issue q f ∷ log) = has_input log
  has_input (retire q f ∷ log) = has_input log
  has_input (output c ∷ log) = has_input log
  has_input (data_entry bytes ∷ log) = has_input log

  has_input-append : (xs ys : List TxEntry) → has_input (xs ++ ys) ≡ (has_input xs || has_input ys)
  unfolding has_input
  has_input-append [] ys = refl
  has_input-append (input id ∷ xs) ys = refl
  has_input-append (header h ∷ xs) ys = has_input-append xs ys
  has_input-append (issue q f ∷ xs) ys = has_input-append xs ys
  has_input-append (retire q f ∷ xs) ys = has_input-append xs ys
  has_input-append (output c ∷ xs) ys = has_input-append xs ys
  has_input-append (data_entry bytes ∷ xs) ys = has_input-append xs ys

or_true : (a : Bool) → (a || true) ≡ true
or_true true = refl
or_true false = refl

or_trans :
    (a b c d : Bool) → (b ≡ true → (a || c) ≡ true) → (b || d) ≡ true → (a || (c || d)) ≡ true
or_trans true b c d h k = refl
or_trans false b true d h k = refl
or_trans false false false d h k = k
or_trans false true false d h k = cc (h refl)

or_weaken : (a b : Bool) → a ≡ true → (a || b) ≡ true
or_weaken true b h = refl
or_weaken false b h = cc

abbrev is_there : Option Bytes32 → Bool
is_there none = false
is_there (some anchor) = true

module _ ⦃scalars : Scalars⦄ ⦃curve : Curve⦄ ⦃field : ScalarField⦄ ⦃cs : ConstraintSystem⦄
    ⦃merlin : Merlin⦄ ⦃le : LittleEndian⦄ ⦃delegate : Delegate⦄ where
  -- The second machine comes after the first.
  record Grows (vm vm' : Vm) : Type 0 where
    mintime_kept : vm'.mintime_ms ≡ vm.mintime_ms
    maxtime_kept : vm'.maxtime_ms ≡ vm.maxtime_ms
    extension_kept : vm'.extension ≡ vm.extension
    entries : List TxEntry
    logged : vm'.txlog ≡ vm.txlog ++ entries
    anchored :
        is_there vm'.last_anchor ≡ true → (is_there vm.last_anchor || has_input entries) ≡ true

  -- A machine with the same log, where an anchor is there only if one was there
  unlogged-Grows :
      (vm vm' : Vm)
      → vm'.mintime_ms ≡ vm.mintime_ms
      → vm'.maxtime_ms ≡ vm.maxtime_ms
      → vm'.extension ≡ vm.extension
      → vm'.txlog ≡ vm.txlog
      → (is_there vm'.last_anchor ≡ true → is_there vm.last_anchor ≡ true)
      → Grows vm vm'
  unlogged-Grows vm vm' a b c d h = record {
    mintime_kept = a;
    maxtime_kept = b;
    extension_kept = c;
    entries = [];
    logged = d ∙ sym (append-nil _);
    anchored = λ k. or_weaken _ _ (h k);
  }

  Grows-trans : (vm vm' vm'' : Vm) → Grows vm vm' → Grows vm' vm'' → Grows vm vm''
  Grows-trans vm vm' vm'' g h = record {
    mintime_kept = h.mintime_kept ∙ g.mintime_kept;
    maxtime_kept = h.maxtime_kept ∙ g.maxtime_kept;
    extension_kept = h.extension_kept ∙ g.extension_kept;
    entries = g.entries ++ h.entries;
    logged =
        h.logged ∙ ap (λ l. l ++ h.entries) g.logged ∙ append_assoc vm.txlog g.entries h.entries;
    anchored = λ k. rw (has_input-append g.entries h.entries) (
        or_trans (is_there vm.last_anchor) (is_there vm'.last_anchor) (has_input g.entries)
          (has_input h.entries) g.anchored (h.anchored k));
  }

  instance Grows-Framed : Framed Grows
  unfolding has_input
  Grows-Framed = record {
    same = λ vm. unlogged-Grows vm vm refl refl refl refl (λ k. k);
    then_also = Grows-trans;
    stack_free = λ vm items. unlogged-Grows vm _ refl refl refl refl (λ k. k);
    state_free = λ vm s. unlogged-Grows vm _ refl refl refl refl (λ k. k);
    log_free = λ vm entry. record {
      mintime_kept = refl;
      maxtime_kept = refl;
      extension_kept = refl;
      entries = entry ∷ [];
      logged = refl;
      anchored = λ k. or_weaken _ _ k;
    };
    renewal_free = λ vm old new e. unlogged-Grows vm _ refl refl refl refl (λ k. ap is_there e);
    input_free = λ vm id items anchor. record {
      mintime_kept = refl;
      maxtime_kept = refl;
      extension_kept = refl;
      entries = input id ∷ [];
      logged = refl;
      anchored = λ k. or_true (is_there vm.last_anchor);
    };
  }

  instance Grows-RunsFree : RunsFree Grows
  Grows-RunsFree = record {
    runs_free = λ vm run runs. unlogged-Grows vm _ refl refl refl refl (λ k. k);
  }

  module _ ⦃random : RandomizableSystem⦄ ⦃gens : PedersenGens⦄ ⦃cloaks : Cloak⦄ where
    -- What `finish` checked
    finish-eq_ok :
        (vm : Vm) (r : (TxId × List TxEntry) × delegate.State)
        → Steps.finish vm ≡ ok r
        → (is_there vm.last_anchor ≡ true)
          × (vm.stack ≡ [])
          × (r ≡ ((from_log vm.txlog, vm.txlog), vm.state))
    unfolding Steps.finish
    finish-eq_ok vm r e = ground arith

    finished :
        (o : Result VmError Vm) (r : (TxId × List TxEntry) × delegate.State)
        → ◌≡◌ {A = Result VmError ((TxId × List TxEntry) × delegate.State)}
            (elim o as (λ x. Result VmError ((TxId × List TxEntry) × delegate.State)) [
              | ok vm' ↦ Steps.finish vm'
              | err e ↦ err e
              | panic ↦ panic
              | stuck ↦ stuck
            ])
            (ok r)
        → (vm' : Vm) × (o ≡ ok vm') × (Steps.finish vm' ≡ ok r)
    finished (ok vm') r e = (vm', refl, e)
    finished (err x) r e = cc
    finished panic r e = cc
    finished stuck r e = cc

    -- A run from a machine without an anchor that returns a log has appended to the machine's log,
    -- an input among the rest, and returns the id of the log.
    pub run_logs_input :
        (fuel : ℕ) (vm : Vm) (txid : TxId) (txlog : List TxEntry) (s : delegate.State)
        → vm.last_anchor ≡ none
        → Steps.run fuel vm ≡ ok ((txid, txlog), s)
        → (txid ≡ from_log txlog)
          × ((entries : List TxEntry) × (txlog ≡ vm.txlog ++ entries) × (has_input entries ≡ true))
    unfolding Steps.run
    run_logs_input fuel vm txid txlog s no_anchor e =
        let (vm', looped, closed) = finished (Steps.run_loop fuel vm) ((txid, txlog), s) e in
        let (there, empty, same) = finish-eq_ok vm' ((txid, txlog), s) closed in
        let grown = run_loop-Keeps Grows fuel vm vm' looped in
        let same_log : txlog ≡ vm'.txlog =
          ap (λ (r : (TxId × List TxEntry) × delegate.State). r.0.1) same in
        (
          ap (λ (r : (TxId × List TxEntry) × delegate.State). r.0.0) same
              ∙ ap from_log (sym same_log),
          (grown.entries, same_log ∙ grown.logged, rw no_anchor at (grown.anchored there)),
        )
