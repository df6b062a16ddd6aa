-- ===== src/Blockchain/Runs.antt =====
-- Runs of the chain, with contracts that are byte strings and a verifier that accepts a transaction
-- with a program, whose log is one output.
use zioncoin_poc.Prelude.{
  ◌+◌, ◌%◌, ◌^◌, ◌≤◌, ◌<◌, ◌≡◌, refl, none, some, List, [], ◌∷◌, ◌++◌, length, replicate,
}
use zioncoin_poc.Prelude.Bytes.{Bytes, bytes_eq}
use zioncoin_poc.Prelude.Result.{Result, ok, err}
use zioncoin_poc.External.Samples.{merlin_sample, scalars_sample, r1cs_sample}
use zioncoin_poc.Errors.{VmError, format_error}
use zioncoin_poc.Tx.{Contracts, TxEntry, input, output, Tx, VerifiedTx}
use zioncoin_poc.Utreexo.Path.{
  Proof, sides_rev, sides, directions, zip, iter, walk_up, walk_up_from,
}
use zioncoin_poc.Utreexo.Forest.{
  WorkForest, new_forest, work_forest, roots_iter, enumerate, present, allocate_roots, insert,
  delete, existing_node_for_path, check_neighbors, fill_nodes, mark_modified, nodes_at, root,
  fold_roots, or_empty,
}
use zioncoin_poc.Utreexo.Forest.Normalize.{
  normalize, non_modified, perfect_roots, join_roots, set_root, filled, root_hashes, catchup_map,
}
use zioncoin_poc.Utreexo.Nodes.{
  new_hasher, empty_heap, leaf, allocate, len, pack, unpack, node_at, traverse, traverse_fuel,
  traverse_stack, traversal_from, push_children, capacity, empty, update, walk_down, walk_down_from,
  find_root, find_root_from, intermediate,
}
use zioncoin_poc.Merkle
use zioncoin_poc.Merkle.{build, build_tree, hash, node_hash, merkle_leaf}
use zioncoin_poc.Blockchain.{
  BlockHeader, Verifier, Block, VerifiedBlock, BlockchainState, check_tx_header, apply_log,
  apply_entry, next_proof, next_height, id,
}
use zioncoin_poc.Blockchain.State.{apply_block, make_block, apply_tx, apply_each, apply_txs}
use zioncoin_poc.Blockchain.Extends.{apply_block-make_block, check_block_header_extends}
use zioncoin_poc.Blockchain.Accepts.{Accepted, apply_block_accepts, apply_log_takes, inputs}

instance abbrev contracts_sample : Contracts
contracts_sample = record { Contract = Bytes; id = λ c. record { id_bytes = c } }

abbrev verify_sample : Tx → Result VmError VerifiedTx
verify_sample tx = elim tx.program [
  | [] ↦ err format_error
  | b ∷ bytes ↦ ok (record {
    header = tx.header;
    id = record { tx_bytes = tx.program };
    log = output tx.program ∷ [];
  })
]

instance abbrev verifier_sample : Verifier
verifier_sample = record { verify_tx = verify_sample }

abbrev first_state : BlockchainState
first_state = record {
  initial_id = record { block_bytes = [] };
  tip = record {
    version = 1;
    height = 1;
    prev = record { block_bytes = [] };
    timestamp_ms = 1000;
    txroot = [];
    utxoroot = [];
    ext = [];
  };
  utreexo = new_forest;
  catchup = record {
    forest = record { generation = 0; roots = []; heap = empty_heap; hasher = new_hasher };
    map = [];
  };
}

abbrev some_tx : Tx
some_tx = record {
  header = record { version = 1; mintime_ms = 1000; maxtime_ms = 2000 };
  program = 5 ∷ [];
  signature = record { s = 7; nonce = replicate 32 9 };
  proof = [];
}

abbrev second_header : BlockHeader
second_header = record {
  version = 1;
  height = 2;
  prev = record { block_bytes = 1 ∷ 1 ∷ 0 ∷ 1000 ∷ 0 ∷ 0 ∷ 0 ∷ [] };
  timestamp_ms = 1500;
  txroot = 1 ∷ 5 ∷ [];
  utxoroot = 1 ∷ 5 ∷ [];
  ext = [];
}

abbrev second_block : Block
second_block = record { header = second_header; txs = some_tx ∷ []; all_utxo_proofs = [] }

abbrev verified_block : VerifiedBlock
verified_block = record {
  header = second_header;
  txs =
      record {
        header = some_tx.header;
        id = record { tx_bytes = 5 ∷ [] };
        log = output (5 ∷ []) ∷ [];
      }
      ∷ [];
}

abbrev second_state : BlockchainState
second_state = record {
  initial_id = record { block_bytes = [] };
  tip = second_header;
  utreexo = record {
    generation = 1;
    roots = some (1 ∷ 5 ∷ []) ∷ replicate 63 none;
    hasher = record { t = [] };
  };
  catchup = record {
    forest = record {
      generation = 1;
      roots = 0 ∷ [];
      heap = record {
        storage = record { hash = 1 ∷ 5 ∷ []; flags = 0; children = (4294967295, 4294967295) } ∷ [];
      };
      hasher = record { t = [] };
    };
    map = (1 ∷ 5 ∷ [], 0) ∷ [];
  };
}

makes_second :
    make_block first_state 1 1500 [] (some_tx ∷ []) []
    ≡ ok (second_block, verified_block, second_state)
unfolding make_block apply_txs apply_each apply_tx check_tx_header apply_log apply_entry next_height
    id new_forest work_forest roots_iter enumerate present allocate_roots insert nodes_at root
    fold_roots or_empty normalize non_modified perfect_roots join_roots set_root filled root_hashes
    catchup_map new_hasher leaf allocate len pack unpack node_at traverse traverse_fuel
    traverse_stack traversal_from push_children capacity empty Merkle.root build build_tree hash
    node_hash merkle_leaf
makes_second = refl

apply_block-make_block_example :
    apply_block first_state second_block ≡ ok (verified_block, second_state)
apply_block-make_block_example =
    apply_block-make_block first_state 1 1500 [] (some_tx ∷ []) [] (λ e. refl) makes_second

accepts_second : apply_block first_state second_block ≡ ok (verified_block, second_state)
accepts_second =
    apply_block-make_block first_state 1 1500 [] (some_tx ∷ []) [] (λ e. refl) makes_second

apply_block_accepts_example : Accepted first_state second_block verified_block second_state
apply_block_accepts_example =
    apply_block_accepts first_state second_block verified_block second_state accepts_second

check_block_header_extends_example :
    (first_state.tip.version ≤ second_header.version)
    × (second_header.height ≡ (first_state.tip.height + 1) % 2 ^ 64)
    × (second_header.prev ≡ id first_state.tip)
    × (first_state.tip.timestamp_ms < second_header.timestamp_ms)
    × (second_header.version ≡ 1 → length second_header.ext ≡ 0)
check_block_header_extends_example =
    check_block_header_extends second_header first_state.tip apply_block_accepts_example.extends

-- The output of the second block is spent.
abbrev spend : List TxEntry
spend = input (record { id_bytes = 5 ∷ [] }) ∷ []

abbrev spend_proof : Proof
spend_proof = record { generation = 1; path = record { position = 0; neighbors = [] } }

abbrev before_spend : WorkForest
before_spend = second_state.catchup.forest

abbrev after_spend : WorkForest
after_spend = record {
  generation = 1;
  roots = 0 ∷ [];
  heap = record {
    storage = record { hash = 1 ∷ 5 ∷ []; flags = 64; children = (4294967295, 4294967295) } ∷ [];
  };
  hasher = record { t = [] };
}

spends : apply_log spend (spend_proof ∷ []) before_spend ≡ ok ([], after_spend)
unfolding apply_log apply_entry next_proof delete nodes_at node_at len unpack find_root
    find_root_from existing_node_for_path check_neighbors walk_down walk_down_from sides_rev sides
    directions zip leaf walk_up walk_up_from iter fill_nodes update pack mark_modified bytes_eq
    capacity intermediate
spends = refl

apply_log_takes_example :
    (taken : List Proof) × ((spend_proof ∷ []) ≡ taken ++ []) × (length taken ≡ inputs spend)
apply_log_takes_example = apply_log_takes spend (spend_proof ∷ []) before_spend spends
