-- ===== src/Vm.antt =====
-- zkvm/src/vm.rs: the state of the virtual machine, its delegate, and the methods that its
-- instructions share. The stack has its top first, so that `stack[len - i - 1]` is entry `i`, and
-- the stack of runs too. A method takes the machine and returns its value with the machine after it.
pub mod Arithmetic
pub mod Contracts
pub mod Calls
pub mod Steps
pub mod Frames
pub mod Methods
pub mod Kept
pub mod Executed
pub mod Returns
pub mod Linear
pub mod Empty
pub mod Loops
pub mod Inputs
use mathlib.Core.Option
use zioncoin_poc.Prelude.{
  ℕ, Bool, Option, none, some, List, [], ◌∷◌, ◌++◌, String, if◌then◌else◌, ltb,
}
use zioncoin_poc.Prelude.Result.{Result, ok, err, panic, stuck}
use zioncoin_poc.Prelude.Bytes.{Bytes}
use zioncoin_poc.External.{
  LittleEndian, Merlin, Scalars, Curve, ScalarField, ConstraintSystem, RandomizableSystem,
  PedersenGens,
}
use zioncoin_poc.Errors.{
  VmError, stack_underflow, anchor_missing, type_not_wide_value, invalid_bitrange,
  r1cs_inconsistency,
}
use zioncoin_poc.Tx.{ContractId, TxHeader, TxEntry, header}
use zioncoin_poc.Items.{
  Bytes32, ScalarWitness, Commitment, Value, ProgramItem, Instruction, Predicate, Contract,
  PortableItem,
}
use zioncoin_poc.Items.Arrays.{array_32}
use zioncoin_poc.Items.Ids.{contract_id, zkvm_contracts}
use zioncoin_poc.Constraints.{Expression, constant, linear_combination}
use zioncoin_poc.Constraints.Flatten.{of_variable}
use zioncoin_poc.Spacesuit.{AllocatedValue, max_bits, range_proof}
use zioncoin_poc.Stack.{
  Variable, Item, WideValue, assignment, commitment_assignment, option_to_integer, in_range,
  payload_of,
}
use zioncoin_poc.Taproot.{PointOp}

-- `trait Delegate`. A method takes the delegate's state, and `cs` reaches its constraint system.
pub record Delegate ⦃scalars : Scalars⦄ ⦃curve : Curve⦄ ⦃cs : ConstraintSystem⦄ : Type 1 where
  pub State : Type 0
  pub RunType : Type 0
  pub commit_variable : Commitment → State → Result VmError ((Bytes32 × cs.Variable) × State)
  pub verify_point_op : PointOp → State → Result VmError State
  pub process_tx_signature : Predicate → ContractId → State → Result VmError State
  pub get_cs : State → cs.System
  pub set_cs : cs.System → State → State
  pub next_instruction : RunType → State → Result VmError (Option Instruction × RunType × State)
  pub new_run : ProgramItem → State → Result VmError RunType

abbrev pub current_version : ℕ
current_version = 1

module _ ⦃scalars : Scalars⦄ ⦃curve : Curve⦄ ⦃field : ScalarField⦄ ⦃cs : ConstraintSystem⦄
    ⦃merlin : Merlin⦄ ⦃le : LittleEndian⦄ ⦃delegate : Delegate⦄ where
  pub record Vm : Type 0 where
    pub mintime_ms : ℕ
    pub maxtime_ms : ℕ
    pub extension : Bool
    pub last_anchor : Option Bytes32
    pub stack : List Item
    pub state : delegate.State
    pub current_run : delegate.RunType
    pub run_stack : List delegate.RunType
    pub txlog : List TxEntry

  -- `VM::new`
  unfoldable pub new_vm : TxHeader → delegate.RunType → delegate.State → Vm
  new_vm h run state = record {
    mintime_ms = h.mintime_ms;
    maxtime_ms = h.maxtime_ms;
    extension = ltb current_version h.version;
    last_anchor = none;
    stack = [];
    state = state;
    current_run = run;
    run_stack = [];
    txlog = header h ∷ [];
  }

  -- A method of the machine
  abbrev pub Method : Type 0 → Type 0
  Method A = Vm → Result VmError (A × Vm)

  infixl 5 ◌>>=◌ ◌>>◌
  abbrev pub ◌>>=◌ : {A B : Type 0} → Method A → (A → Method B) → Method B
  ◌>>=◌ m f vm = elim (m vm) [ ok p ↦ f p.0 p.1 | err e ↦ err e | panic ↦ panic | stuck ↦ stuck ]

  abbrev pub ◌>>◌ : {B : Type 0} → Method (Unit {0}) → Method B → Method B
  m >> k = m >>= λ _. k

  abbrev pub pure : {A : Type 0} → A → Method A
  pure a vm = ok (a, vm)

  abbrev pub fail : {A : Type 0} → VmError → Method A
  fail e vm = err e

  -- `result?`
  unfoldable pub try : {A : Type 0} → Result VmError A → Method A
  try (ok a) vm = ok (a, vm)
  try (err e) vm = err e
  try panic vm = panic
  try stuck vm = stuck

  -- `if bad { return Err(e) }`
  unfoldable pub refuse_if : Bool → VmError → Method (Unit {0})
  refuse_if bad e = if bad then fail e else pure tt

  unfoldable pub pop_item : Method Item
  pop_item vm = elim vm.stack [
    | [] ↦ err stack_underflow
    | item ∷ rest ↦ ok (item, record vm { stack = rest })
  ]

  unfoldable pub push_item : Item → Method (Unit {0})
  push_item item vm = ok (tt, record vm { stack = item ∷ vm.stack })

  -- `for item in items { self.push_item(item) }`
  unfoldable pub push_items : List Item → Method (Unit {0})
  unfolding push_item
  push_items [] = pure tt
  push_items (item ∷ items) = do push_item item; push_items items

  -- `self.txlog.push(entry)`
  unfoldable pub log_entry : TxEntry → Method (Unit {0})
  log_entry entry vm = ok (tt, record vm { txlog = vm.txlog ++ entry ∷ [] })

  unfoldable pub set_anchor : Option Bytes32 → Method (Unit {0})
  set_anchor anchor vm = ok (tt, record vm { last_anchor = anchor })

  -- A call of the delegate that changes it
  unfoldable pub delegate_call :
      {A : Type 0} → (delegate.State → Result VmError (A × delegate.State)) → Method A
  delegate_call call vm = elim (call vm.state) [
    | ok p ↦ ok (p.0, record vm { state = p.1 })
    | err e ↦ err e
    | panic ↦ panic
    | stuck ↦ stuck
  ]

  unfoldable pub delegate_update :
      (delegate.State → Result VmError delegate.State) → Method (Unit {0})
  delegate_update call vm = elim (call vm.state) [
    | ok s ↦ ok (tt, record vm { state = s })
    | err e ↦ err e
    | panic ↦ panic
    | stuck ↦ stuck
  ]

  unfoldable pub commit_variable : Commitment → Method (Bytes32 × cs.Variable)
  unfolding delegate_call
  commit_variable c = delegate_call (delegate.commit_variable c)

  unfoldable pub verify_point_op : PointOp → Method (Unit {0})
  unfolding delegate_update
  verify_point_op op = delegate_update (delegate.verify_point_op op)

  -- A call on the delegate's constraint system, and its error as the given one
  unfoldable pub cs_call : {A : Type 0} → VmError → (cs.System → Option (A × cs.System)) → Method A
  cs_call e call vm = elim (call (delegate.get_cs vm.state)) [
    | none ↦ err e
    | some p ↦ ok (p.0, record vm { state = delegate.set_cs p.1 vm.state })
  ]

  unfoldable pub cs_update : VmError → (cs.System → Option cs.System) → Method (Unit {0})
  cs_update e call vm = elim (call (delegate.get_cs vm.state)) [
    | none ↦ err e
    | some s ↦ ok (tt, record vm { state = delegate.set_cs s vm.state })
  ]

  -- A call of a gadget, of which any error becomes the given one
  unfoldable pub cs_gadget :
      VmError → (cs.System → Result (Unit {0}) (Unit {0} × cs.System)) → Method (Unit {0})
  cs_gadget e call vm = elim (call (delegate.get_cs vm.state)) [
    | ok p ↦ ok (tt, record vm { state = delegate.set_cs p.1 vm.state })
    | err _ ↦ err e
    | panic ↦ panic
    | stuck ↦ stuck
  ]

  unfoldable pub variable_to_expression : Variable → Method Expression
  unfolding commit_variable of_variable commitment_assignment
  variable_to_expression var = do
    committed ← commit_variable var.commitment
    pure (linear_combination (of_variable committed.1) (commitment_assignment var.commitment))

  unfoldable pub value_to_cloak_value : Value → Method AllocatedValue
  unfolding commit_variable try assignment
  value_to_cloak_value value = do
    q ← commit_variable value.qty
    f ← commit_variable value.flv
    witness ← try (assignment value)
    pure (record { q = q.1; f = f.1; assignment = witness })

  unfoldable pub wide_value_to_cloak_value : WideValue → AllocatedValue
  wide_value_to_cloak_value walue = record {
    q = walue.r1cs_qty;
    f = walue.r1cs_flv;
    assignment = walue.witness;
  }

  unfoldable pub item_to_wide_value : Item → Method WideValue
  unfolding commit_variable try assignment
  item_to_wide_value (Item.value value) = do
    qty ← commit_variable value.qty
    flv ← commit_variable value.flv
    witness ← try (assignment value)
    pure (record { r1cs_qty = qty.1; r1cs_flv = flv.1; witness = witness })
  item_to_wide_value (Item.wide_value w) = pure w
  item_to_wide_value _ = fail type_not_wide_value

  -- `continue_with_program`: the run is made by the delegate, which it does not change.
  unfoldable pub continue_with_program : ProgramItem → Method (Unit {0})
  continue_with_program prog vm = elim (delegate.new_run prog vm.state) [
    | ok run ↦ ok (tt, record vm { current_run = run; run_stack = vm.current_run ∷ vm.run_stack })
    | err e ↦ err e
    | panic ↦ panic
    | stuck ↦ stuck
  ]

  unfoldable pub add_range_proof : ⦃random : RandomizableSystem⦄ → Expression → Method (Unit {0})
  unfolding in_range try option_to_integer cs_update refuse_if
  add_range_proof (constant x) = if in_range x then pure tt else fail invalid_bitrange
  add_range_proof (linear_combination terms a) = do
    integer ← try (option_to_integer a)
    cs_update r1cs_inconsistency (range_proof terms integer max_bits)

  unfoldable pub make_contract : Predicate → List PortableItem → Method Contract
  unfolding array_32 payload_of
  make_contract predicate payload vm = elim vm.last_anchor [
    | none ↦ err anchor_missing
    | some anchor ↦
        let contract = Contract.contract_of predicate (payload_of payload) anchor in
        ok (contract, record vm { last_anchor = some (array_32 (contract_id contract).id_bytes) })
  ]
