-- ===== src/Verifier/Blocks.antt =====
-- A block with a transaction that spends the coin with which the chain starts.
use native.Mathlib.Decide.{ℕ_discrete}
use zioncoin_poc.Prelude.{ℕ, ◌≡◌, refl, List, [], ◌∷◌}
use zioncoin_poc.Prelude.Bytes.{bytes_eq}
use zioncoin_poc.Prelude.Result.{ok}
use zioncoin_poc.External.Samples.{
  le_sample, merlin_sample, scalars_sample, r1cs_sample, curve_sample, field_sample, cs_sample,
  gens_sample, system_sample, r1cs_verifier_sample,
}
use zioncoin_poc.Tx.{Tx}
use zioncoin_poc.Items.Encode.{encode_payload, payload_count, predicate_to_point, string_length}
use zioncoin_poc.Items.Ids.{zkvm_contracts, contract_id}
use zioncoin_poc.Vm.Arithmetic
use zioncoin_poc.Vm.Contracts
use zioncoin_poc.Encoding.{parse, read_u8, read_size, read_point, write_u8, write_size, write_point}
use zioncoin_poc.Items.Opcodes.{to_u8, from_u8}
use zioncoin_poc.Items.Parse.{parse_instruction, parse_opcode, parse_operands}
use zioncoin_poc.Items.Decode.{
  decode_contract, check_count, decode_payload, read_array, read_point_array, to_array,
}
use zioncoin_poc.Merkle.Power.{next_power_of_two}
use zioncoin_poc.Vm.Steps
use zioncoin_poc.Spacesuit.Gadget.{spacesuit_cloak}
use zioncoin_poc.Verifier.Chain.{AllChecked, zkvm_verifier, apply_block-AllChecked}
use zioncoin_poc.Utreexo.Path.{Proof}
use zioncoin_poc.Utreexo.Nodes.{
  new_hasher, empty_heap, leaf, allocate, traverse, update, walk_down, find_root,
}
use zioncoin_poc.Utreexo.Path.{sides_rev, walk_up}
use zioncoin_poc.Utreexo.Forest.{
  work_forest, roots_iter, enumerate, present, allocate_roots, insert, delete,
  existing_node_for_path, check_neighbors, fill_nodes, mark_modified, nodes_at,
}
use zioncoin_poc.Utreexo.Forest.Normalize.{
  normalize, non_modified, perfect_roots, join_roots, set_root, filled, root_hashes, catchup_map,
  update_forest,
}
use zioncoin_poc.Utreexo.Forest.Catchup.{update_proof, move_proof, climb, map_get, insert_neighbors}
use zioncoin_poc.Blockchain.State.{apply_tx, apply_each, apply_txs}
use zioncoin_poc.Blockchain.{
  check_tx_header, apply_log, apply_entry, next_proof, initial_header, initial_proofs, insert_utxos,
}
use zioncoin_poc.Utreexo.Forest.{new_forest}
use zioncoin_poc.Blockchain.{BlockHeader, BlockchainState, Block, VerifiedBlock, make_initial}
use zioncoin_poc.Blockchain.State.{make_block, apply_block}
use zioncoin_poc.Blockchain.Extends.{apply_block-make_block}
use zioncoin_poc.Verifier.{verifier_delegate, verify_tx, remember_key, verifier_next}
use zioncoin_poc.Verifier.Runs.{coin, spend, ok_value}

-- A chain that starts with the coin, and a block that spends it
abbrev factors : Tx → ℕ → scalars_sample.Scalar
factors tx i = 1

abbrev no_state : BlockchainState
no_state =
    let header : BlockHeader = record {
      version = 0;
      height = 0;
      prev = record { block_bytes = [] };
      timestamp_ms = 0;
      txroot = [];
      utxoroot = [];
      ext = [];
    } in
    record {
      initial_id = record { block_bytes = [] };
      tip = header;
      utreexo = new_forest;
      catchup = record {
        forest = record { generation = 0; roots = []; heap = empty_heap; hasher = new_hasher };
        map = [];
      };
    }

abbrev start : BlockchainState × List Proof
start = ok_value (no_state, []) (make_initial 0 (contract_id coin ∷ []))

abbrev next_block : Block × VerifiedBlock × BlockchainState
next_block =
    ok_value
      (
        record { header = start.0.tip; txs = []; all_utxo_proofs = [] },
        record { header = start.0.tip; txs = [] },
        no_state,
      )
      (make_block ⦃verifier = zkvm_verifier 5 factors⦄ start.0 1 5 [] (spend ∷ []) start.1)

makes_next :
    make_block ⦃verifier = zkvm_verifier 5 factors⦄ start.0 1 5 [] (spend ∷ []) start.1
    ≡ ok next_block
unfolding verify_tx Steps.step Steps.execute verifier_next parse parse_instruction parse_opcode
    parse_operands read_u8 read_size read_point read_array read_point_array to_array from_u8 to_u8
    check_count decode_contract decode_payload encode_payload payload_count predicate_to_point
    write_u8 write_size write_point string_length Arithmetic.pushdata Contracts.input
    Contracts.signtx contract_id remember_key ℕ_discrete next_power_of_two make_block apply_txs
    apply_each apply_tx check_tx_header apply_log apply_entry new_forest work_forest roots_iter
    enumerate present allocate_roots insert nodes_at normalize non_modified perfect_roots join_roots
    set_root filled root_hashes catchup_map new_hasher leaf allocate traverse make_initial
    initial_header initial_proofs update_forest insert_utxos update_proof next_proof delete
    find_root existing_node_for_path check_neighbors walk_down sides_rev walk_up fill_nodes update
    mark_modified bytes_eq move_proof climb map_get insert_neighbors
makes_next = refl

accepts_next :
    apply_block ⦃verifier = zkvm_verifier 5 factors⦄ start.0 next_block.0
    ≡ ok (next_block.1, next_block.2)
accepts_next =
    apply_block-make_block ⦃verifier = zkvm_verifier 5 factors⦄ start.0 1 5 [] (spend ∷ []) start.1
      (λ e. refl) makes_next

apply_block-AllChecked_example : AllChecked 5 factors next_block.0.txs next_block.1.txs
apply_block-AllChecked_example =
    apply_block-AllChecked 5 factors start.0 next_block.0 next_block.1 next_block.2 accepts_next
