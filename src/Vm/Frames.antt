-- ===== src/Vm/Frames.antt =====
-- What every instruction does to the machine: it changes the stack and the delegate's state, appends
-- to the log, renews an anchor, or sets one with the input that it logs; a call changes the runs.
-- A relation that all these keep is kept by the instructions.
use zioncoin_poc.Prelude.{
  ◌≡◌, Bool, true, false, Option, none, some, List, [], ◌∷◌, ◌++◌, if◌then◌else◌,
}
use zioncoin_poc.Prelude.Result.{Result, ok, err, panic, stuck}
use zioncoin_poc.External.{LittleEndian, Merlin, Scalars, Curve, ScalarField, ConstraintSystem}
use zioncoin_poc.Errors.{VmError, stack_underflow}
use zioncoin_poc.Tx.{ContractId, TxEntry}
use zioncoin_poc.Items.{Bytes32, Commitment}
use zioncoin_poc.Items.Ids.{zkvm_contracts}
use zioncoin_poc.Stack.{Item, Variable}
use zioncoin_poc.Taproot.{PointOp}
use zioncoin_poc.Vm.{
  Delegate, Vm, Method, ◌>>=◌, pure, fail, try, pop_item, push_item, push_items, log_entry,
  delegate_update, commit_variable, verify_point_op, cs_call, cs_update, cs_gadget,
  variable_to_expression,
}

module _ ⦃scalars : Scalars⦄ ⦃curve : Curve⦄ ⦃field : ScalarField⦄ ⦃cs : ConstraintSystem⦄
    ⦃merlin : Merlin⦄ ⦃le : LittleEndian⦄ ⦃delegate : Delegate⦄ where
  pub record Framed (R : Vm → Vm → Type 0) : Type 0 where
    pub same : (vm : Vm) → R vm vm
    pub then_also : (vm vm' vm'' : Vm) → R vm vm' → R vm' vm'' → R vm vm''
    pub stack_free : (vm : Vm) (items : List Item) → R vm (record vm { stack = items })
    pub state_free : (vm : Vm) (s : delegate.State) → R vm (record vm { state = s })
    pub log_free : (vm : Vm) (entry : TxEntry) → R vm (record vm { txlog = vm.txlog ++ entry ∷ [] })
    pub renewal_free :
        (vm : Vm) (old new : Bytes32)
        → vm.last_anchor ≡ some old
        → R vm (record vm { last_anchor = some new })
    pub input_free :
        (vm : Vm) (id : ContractId) (items : List Item) (anchor : Bytes32)
        → R vm (record vm {
          txlog = vm.txlog ++ TxEntry.input id ∷ [];
          stack = items;
          last_anchor = some anchor;
        })

  -- Where a method returns, the machine is related to `vm`.
  pub data After {A : Type 0} (P : Vm → Type 0) : Result VmError (A × Vm) → Type 0 where
    returned : {a : A} {vm' : Vm} → P vm' → After P (ok (a, vm'))
    refused : {e : VmError} → After P (err e)
    panicked : After P panic
    ran_out : After P stuck

  pub record Keeps {A : Type 0} (R : Vm → Vm → Type 0) (m : Method A) : Type 0 where
    pub from : (vm : Vm) → After (R vm) (m vm)

  module _ (R : Vm → Vm → Type 0) ⦃framed : Framed R⦄ where
    After-then :
        {A : Type 0} {r : Result VmError (A × Vm)} (vm vm' : Vm)
        → R vm vm'
        → After (R vm') r
        → After (R vm) r
    After-then vm vm' h (returned {vm' = last} k) = returned (framed.then_also vm vm' last h k)
    After-then vm vm' h refused = refused
    After-then vm vm' h panicked = panicked
    After-then vm vm' h ran_out = ran_out

    After-bind :
        {A B : Type 0} {r : Result VmError (A × Vm)} (vm : Vm) (f : A → Method B)
        → After (R vm) r
        → ((a : A) → Keeps R (f a))
        → After (R vm) (◌>>=◌ (λ w. r) f vm)
    After-bind vm f (returned {a} {vm'} h) k = After-then vm vm' h ((k a).from vm')
    After-bind vm f refused k = refused
    After-bind vm f panicked k = panicked
    After-bind vm f ran_out k = ran_out

    pub bind-Keeps :
        {A B : Type 0} {m : Method A} {f : A → Method B}
        → Keeps R m
        → ((a : A) → Keeps R (f a))
        → Keeps R (m >>= f)
    bind-Keeps {m} {f} h k = record { from = λ vm. After-bind vm f (h.from vm) k }

    pub pure-Keeps : {A : Type 0} (a : A) → Keeps R (pure a)
    pure-Keeps a = record { from = λ vm. returned (framed.same vm) }

    pub fail-Keeps : {A : Type 0} (e : VmError) → Keeps {A = A} R (fail e)
    fail-Keeps e = record { from = λ vm. refused }

    pub if-Keeps :
        {A : Type 0} (b : Bool) {m n : Method A}
        → Keeps R m
        → Keeps R n
        → Keeps R (if b then m else n)
    if-Keeps true h k = h
    if-Keeps false h k = k

    try-After : {A : Type 0} (r : Result VmError A) (vm : Vm) → After (R vm) (try r vm)
    unfolding try
    try-After (ok a) vm = returned (framed.same vm)
    try-After (err e) vm = refused
    try-After panic vm = panicked
    try-After stuck vm = ran_out

    pub try-Keeps : {A : Type 0} (r : Result VmError A) → Keeps R (try r)
    try-Keeps r = record { from = try-After r }

    popped-After :
        (vm : Vm) (items : List Item)
        → After (R vm) (elim items as (λ x. Result VmError (Item × Vm)) [
          | [] ↦ err stack_underflow
          | item ∷ rest ↦ ok (item, record vm { stack = rest })
        ])
    popped-After vm [] = refused
    popped-After vm (item ∷ rest) = returned (framed.stack_free vm rest)

    pub pop_item-Keeps : Keeps R pop_item
    unfolding pop_item
    pop_item-Keeps = record { from = λ vm. popped-After vm vm.stack }

    pub push_item-Keeps : (item : Item) → Keeps R (push_item item)
    unfolding push_item
    push_item-Keeps item = record { from = λ vm. returned (framed.stack_free vm (item ∷ vm.stack)) }

    pub push_items-Keeps : (items : List Item) → Keeps R (push_items items)
    unfolding push_items
    push_items-Keeps [] = pure-Keeps tt
    push_items-Keeps (item ∷ items) =
        bind-Keeps (push_item-Keeps item) (λ u. push_items-Keeps items)

    pub log_entry-Keeps : (entry : TxEntry) → Keeps R (log_entry entry)
    unfolding log_entry
    log_entry-Keeps entry = record { from = λ vm. returned (framed.log_free vm entry) }

    -- A call whose result decides the new state
    state_call-After :
        {A : Type 0} (vm : Vm) (r : Result VmError (A × delegate.State))
        → After (R vm) (elim r as (λ x. Result VmError (A × Vm)) [
          | ok p ↦ ok (p.0, record vm { state = p.1 })
          | err e ↦ err e
          | panic ↦ panic
          | stuck ↦ stuck
        ])
    state_call-After vm (ok p) = returned (framed.state_free vm p.1)
    state_call-After vm (err e) = refused
    state_call-After vm panic = panicked
    state_call-After vm stuck = ran_out

    pub state_update-After :
        (vm : Vm) (r : Result VmError delegate.State)
        → After (R vm) (elim r as (λ x. Result VmError (Unit {0} × Vm)) [
          | ok s ↦ ok (tt, record vm { state = s })
          | err e ↦ err e
          | panic ↦ panic
          | stuck ↦ stuck
        ])
    state_update-After vm (ok s) = returned (framed.state_free vm s)
    state_update-After vm (err e) = refused
    state_update-After vm panic = panicked
    state_update-After vm stuck = ran_out

    cs_call-After :
        {A : Type 0} (vm : Vm) (e : VmError) (r : Option (A × cs.System))
        → After (R vm) (elim r as (λ x. Result VmError (A × Vm)) [
          | none ↦ err e
          | some p ↦ ok (p.0, record vm { state = delegate.set_cs p.1 vm.state })
        ])
    cs_call-After vm e none = refused
    cs_call-After vm e (some p) = returned (framed.state_free vm (delegate.set_cs p.1 vm.state))

    cs_update-After :
        (vm : Vm) (e : VmError) (r : Option cs.System)
        → After (R vm) (elim r as (λ x. Result VmError (Unit {0} × Vm)) [
          | none ↦ err e
          | some s ↦ ok (tt, record vm { state = delegate.set_cs s vm.state })
        ])
    cs_update-After vm e none = refused
    cs_update-After vm e (some s) = returned (framed.state_free vm (delegate.set_cs s vm.state))

    pub delegate_update-Keeps :
        (call : delegate.State → Result VmError delegate.State) → Keeps R (delegate_update call)
    unfolding delegate_update
    delegate_update-Keeps call = record { from = λ vm. state_update-After vm (call vm.state) }

    pub commit_variable-Keeps : (c : Commitment) → Keeps R (commit_variable c)
    unfolding commit_variable
    commit_variable-Keeps c = record {
      from = λ vm. state_call-After vm (delegate.commit_variable c vm.state);
    }

    pub cs_call-Keeps :
        {A : Type 0} (e : VmError) (call : cs.System → Option (A × cs.System))
        → Keeps R (cs_call e call)
    unfolding cs_call
    cs_call-Keeps e call = record {
      from = λ vm. cs_call-After vm e (call (delegate.get_cs vm.state));
    }

    pub cs_update-Keeps :
        (e : VmError) (call : cs.System → Option cs.System) → Keeps R (cs_update e call)
    unfolding cs_update
    cs_update-Keeps e call = record {
      from = λ vm. cs_update-After vm e (call (delegate.get_cs vm.state));
    }

    cs_gadget-After :
        (vm : Vm) (e : VmError) (r : Result (Unit {0}) (Unit {0} × cs.System))
        → After (R vm) (elim r as (λ x. Result VmError (Unit {0} × Vm)) [
          | ok p ↦ ok (tt, record vm { state = delegate.set_cs p.1 vm.state })
          | err _ ↦ err e
          | panic ↦ panic
          | stuck ↦ stuck
        ])
    cs_gadget-After vm e (ok p) = returned (framed.state_free vm (delegate.set_cs p.1 vm.state))
    cs_gadget-After vm e (err x) = refused
    cs_gadget-After vm e panic = panicked
    cs_gadget-After vm e stuck = ran_out

    pub cs_gadget-Keeps :
        (e : VmError) (call : cs.System → Result (Unit {0}) (Unit {0} × cs.System))
        → Keeps R (cs_gadget e call)
    unfolding cs_gadget
    cs_gadget-Keeps e call = record {
      from = λ vm. cs_gadget-After vm e (call (delegate.get_cs vm.state));
    }

    pub ruleset keeps = (
      bind-Keeps, pure-Keeps, fail-Keeps, if-Keeps, try-Keeps, pop_item-Keeps, push_item-Keeps,
      push_items-Keeps, log_entry-Keeps, delegate_update-Keeps, commit_variable-Keeps,
      cs_call-Keeps, cs_update-Keeps, cs_gadget-Keeps,
    )

    pub verify_point_op-Keeps : (op : PointOp) → Keeps R (verify_point_op op)
    unfolding verify_point_op
    verify_point_op-Keeps op = delegate_update-Keeps (delegate.verify_point_op op)

    pub variable_to_expression-Keeps : (var : Variable) → Keeps R (variable_to_expression var)
    unfolding variable_to_expression
    variable_to_expression-Keeps var = search keeps
