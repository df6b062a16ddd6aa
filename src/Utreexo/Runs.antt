-- ===== src/Utreexo/Runs.antt =====
-- Runs of the forest, with numbers as items and a transcript that keeps what is appended.
use zioncoin_poc.Prelude.{
  ℕ, ◌≡◌, refl, true, false, Option, none, some, List, [], ◌∷◌, ◌++◌, reverse, arith, get_elem?,
  replicate,
}
use zioncoin_poc.Prelude.Bytes.{Bytes, bytes_eq}
use zioncoin_poc.Prelude.Result.{ok}
use zioncoin_poc.External.Samples.{merlin_sample, frames_differ}
use zioncoin_poc.Merkle.{MerkleItem}
use zioncoin_poc.Utreexo.Path.{
  Hash, Proof, Directions, sides, sides_rev, walk_up, walk_up_from, iter, directions, zip, order,
  choose, from_bit, next,
}
use zioncoin_poc.Utreexo.Path.Order.{sides_rev-eq-reverse}
use zioncoin_poc.Utreexo.Nodes.{Node, intermediate, leaf, find_root, find_root_from, pack, unpack}
use zioncoin_poc.Utreexo.Nodes.Packing.{unpack-pack, ChildrenFit}
use zioncoin_poc.Utreexo.Nodes.Roots.{total, find_root_in, find_root_past}
use zioncoin_poc.Utreexo.Forest.{
  Forest, verify, roots_iter, enumerate, present, last_parent, hash_is,
}
use zioncoin_poc.Utreexo.Forest.{WorkForest, nodes_at, insert, delete_transient}
use zioncoin_poc.Utreexo.Forest.Insertion.{
  NoLeaf, new_leaf, nodes_at-insert, delete_transient-insert,
}
use zioncoin_poc.Utreexo.Nodes.{node_at, allocate}
use zioncoin_poc.Utreexo.Forest.Membership.{
  Represents, forest_leaves, verify_complete, verify_sound,
}
use zioncoin_poc.Utreexo.Trees.{Tree, IsPerfect, leaves, tree_hash}
use zioncoin_poc.Utreexo.Trees.Slots.{from_top, PerfectSlots, all_leaves}
use zioncoin_poc.Utreexo.Trees.Walk.{NodesDiffer}

instance abbrev number_item : MerkleItem Bytes ℕ
number_item = record { commit = λ x t. t ++ x ∷ [] }

abbrev second : ℕ
second = 2

-- Items 1, 2 and 3: a tree of two leaves, and one of one.
abbrev three_slots : List (Option Tree)
three_slots =
    some (Tree.leaf (3 ∷ []))
    ∷ some (Tree.node (Tree.leaf (1 ∷ [])) (Tree.leaf (2 ∷ [])))
    ∷ replicate 62 none

abbrev pair_hash : Hash
pair_hash = 1 ∷ 1 ∷ 1 ∷ 2 ∷ []

abbrev three_items : Forest
three_items = record {
  generation = 1;
  roots = some (3 ∷ []) ∷ some pair_hash ∷ replicate 62 none;
  hasher = record { t = [] };
}

abbrev proof_of_two : Proof
proof_of_two = record { generation = 1; path = record { position = 1; neighbors = (1 ∷ []) ∷ [] } }

three_items-Represents : Represents three_items three_slots
unfolding tree_hash intermediate PerfectSlots IsPerfect
three_items-Represents = record { roots = refl; perfect = (tt, ((tt, tt), tt)); count = refl }

sample-NodesDiffer : NodesDiffer (intermediate three_items.hasher)
unfolding intermediate
sample-NodesDiffer l r l' r' e = frames_differ [] l r l' r' e

two-verifies : verify three_items second proof_of_two ≡ ok tt
unfolding verify roots_iter enumerate present find_root find_root_from last_parent hash_is walk_up
    walk_up_from iter directions sides zip order leaf intermediate bytes_eq choose from_bit next
two-verifies = refl

verify_sound_example :
    get_elem? (forest_leaves three_slots) 1 ≡ some (leaf three_items.hasher second)
verify_sound_example =
    verify_sound three_items-Represents sample-NodesDiffer second proof_of_two two-verifies

two_leaf : get_elem? (forest_leaves three_slots) 1 ≡ some (leaf three_items.hasher second)
unfolding all_leaves from_top leaves leaf
two_leaf = refl

verify_complete_example :
    (proof : Proof) × (proof.path.position ≡ 1) × (verify three_items second proof ≡ ok tt)
verify_complete_example = verify_complete three_items-Represents second 1 two_leaf

-- Roots of levels 2, 1 and 0, as pairs of a level and a hash.
abbrev levels : List ℕ
levels = 2 ∷ 1 ∷ 0 ∷ []

find_root_in_example : find_root (λ n. n) 5 levels ≡ some 1
unfolding total
find_root_in_example =
    find_root_in (λ n. n) 5 (2 ∷ []) (0 ∷ []) 1 (omega arith) (omega arith) (omega arith)

find_root_past_example : find_root (λ n. n) 7 levels ≡ none
find_root_past_example =
    find_root_past (λ n. n) 7 levels (unfold total in omega arith) (unfold total in omega arith)

abbrev inner_node : Node
inner_node = record {
  index = 9;
  hash = 1 ∷ 2 ∷ [];
  level = 5;
  modified = true;
  children = some (3, 4);
}

inner_node-ChildrenFit : ChildrenFit inner_node.children
inner_node-ChildrenFit = (omega arith, omega arith)

unpack-pack_example : unpack (pack inner_node) 9 ≡ inner_node
unpack-pack_example = unpack-pack inner_node (omega arith) inner_node-ChildrenFit

abbrev four_directions : Directions
four_directions = record { position = 6; depth = 4 }

sides_rev-eq-reverse_example : sides_rev four_directions ≡ reverse (sides four_directions)
sides_rev-eq-reverse_example = sides_rev-eq-reverse four_directions (omega arith)

-- A forest with one item, and a second one inserted.
abbrev one_item : WorkForest
one_item = record {
  generation = 0;
  roots = 0 ∷ [];
  heap = record {
    storage = record { hash = 1 ∷ []; flags = 0; children = (0xffffffff, 0xffffffff) } ∷ [];
  };
  hasher = record { t = [] };
}

abbrev first_node : Node
first_node = record { index = 0; hash = 1 ∷ []; level = 0; modified = false; children = none }

abbrev two_items : WorkForest
two_items = record {
  generation = 0;
  roots = 0 ∷ 1 ∷ [];
  heap = record {
    storage =
        record { hash = 1 ∷ []; flags = 0; children = (0xffffffff, 0xffffffff) }
        ∷ record { hash = 2 ∷ []; flags = 0; children = (0xffffffff, 0xffffffff) }
        ∷ [];
  };
  hasher = record { t = [] };
}

one_item_nodes : nodes_at one_item.heap one_item.roots ≡ ok (first_node ∷ [])
unfolding nodes_at node_at unpack
one_item_nodes = refl

inserts_second : insert one_item second ≡ ok two_items
unfolding insert allocate leaf pack
inserts_second = refl

second_is_new : NoLeaf (leaf one_item.hasher second) (first_node ∷ [])
unfolding leaf
second_is_new = ((λ level same. cc), tt)

nodes_at-insert_example :
    nodes_at two_items.heap two_items.roots ≡ ok (first_node ∷ new_leaf one_item second ∷ [])
nodes_at-insert_example =
    nodes_at-insert one_item second (first_node ∷ []) two_items one_item_nodes inserts_second

delete_transient-insert_example :
    delete_transient two_items second ≡ ok (record two_items { roots = one_item.roots })
delete_transient-insert_example =
    delete_transient-insert one_item second (first_node ∷ []) two_items one_item_nodes second_is_new
      inserts_second
