-- ===== src/Merkle/Inclusion.antt =====
-- Every entry of the list has a path, and the path leads from the entry to the root.
use mathlib.Core.WellFounded.{Acc}
use zioncoin_poc.Prelude.{
  ℕ, zero, suc, ◌-◌, ◌/◌, ◌≤◌, ◌<◌, ◌≡◌, refl, ◌∙◌, String, true, false, some, List, [], ◌∷◌, ◌++◌,
  arith, append_assoc, append-nil, Bool-cases, inl, inr, leb, leb→le, leb→lt, length, take, drop,
  get_elem?, length-take, length-drop,
}
use zioncoin_poc.Prelude.Result.{ok}
use zioncoin_poc.Prelude.Bytes.{Bytes, bytes_eq_refl}
use zioncoin_poc.External.{Merlin}
use zioncoin_poc.Merkle.{
  MerkleItem, MerkleNeighbor, left, right, MerkleNode, node, node_hash, next_power_of_two,
  half_power-lt, subpath, create_path, merkle_node, merkle_leaf, walk_path, build_tree, build, hash,
  verify_path,
}
use zioncoin_poc.Merkle.Power.{Shorter, Shorter_wf, take_half-Shorter, drop_half-Shorter}
use native.Mathlib.Nat.{sub-zero}

module _ {A : Type 0} where
  pub length-get_elem? :
      (i : ℕ) (xs : List A) {x : A} → get_elem? xs i ≡ some x → leb (length xs) i ≡ false
  length-get_elem? i [] e = cc
  length-get_elem? zero (x ∷ xs) e = ground arith
  length-get_elem? (suc i) (x ∷ xs) e = ground (arith, length-get_elem? i xs e)

  pub get_elem?-take : (k i : ℕ) (xs : List A) → i < k → get_elem? (take k xs) i ≡ get_elem? xs i
  get_elem?-take zero i xs h = absurd (omega arith)
  get_elem?-take (suc k) i [] h = refl
  get_elem?-take (suc k) zero (x ∷ xs) h = refl
  get_elem?-take (suc k) (suc i) (x ∷ xs) h = get_elem?-take k i xs (omega arith)

  pub get_elem?-drop :
      (k i : ℕ) (xs : List A) → k ≤ i → get_elem? (drop k xs) (i - k) ≡ get_elem? xs i
  get_elem?-drop zero i xs h = rw (sub-zero i)
  get_elem?-drop (suc k) i [] h = refl
  get_elem?-drop (suc k) zero (x ∷ xs) h = absurd (omega arith)
  get_elem?-drop (suc k) (suc i) (x ∷ xs) h =
      let q : suc i - suc k ≡ i - k = omega arith in rw q (get_elem?-drop k i xs (omega arith))

module _ ⦃merlin : Merlin⦄ where
  open merlin use {Transcript, new}

  walk_path-append :
      (t : Transcript) (h : Bytes) (p q : List MerkleNeighbor)
      → walk_path t h (p ++ q) ≡ walk_path t (walk_path t h p) q
  unfolding walk_path
  walk_path-append t h [] q = refl
  walk_path-append t h (left l ∷ p) q = walk_path-append t (merkle_node t l h) p q
  walk_path-append t h (right r ∷ p) q = walk_path-append t (merkle_node t h r) p q

  module _ {M : Type 0} ⦃item : MerkleItem Transcript M⦄ where
    -- What `subpath` finds below `n` for the entry at `index`, put before the `result` so far.
    abbrev Leads : Transcript → M → MerkleNode → ℕ → ℕ → List MerkleNeighbor → Type 0
    Leads t entry n index size result =
        (p : List MerkleNeighbor) × (subpath n index size result ≡ ok (p ++ result))
        × (walk_path t (merkle_leaf t entry) p ≡ node_hash n)

    module _ (t : Transcript) (entry : M) (l r : MerkleNode) (index size : ℕ)
        (result : List MerkleNeighbor) where
      abbrev parent : MerkleNode
      parent = node (merkle_node t (node_hash l) (node_hash r)) l r

      Leads-right :
          leb (next_power_of_two size / 2) index ≡ true
          → Leads t entry r
              (index - next_power_of_two size / 2)
              (size - next_power_of_two size / 2)
              (left (node_hash l) ∷ result)
          → Leads t entry parent index size result
      unfolding subpath
      Leads-right e (p, found, walked) = (
        p ++ left (node_hash l) ∷ [],
        rw (e, append_assoc) found,
        rw (walk_path-append, walked) (unfold walk_path in refl),
      )

      Leads-left :
          leb (next_power_of_two size / 2) index ≡ false
          → Leads t entry l index (next_power_of_two size / 2) (right (node_hash r) ∷ result)
          → Leads t entry parent index size result
      unfolding subpath
      Leads-left e (p, found, walked) = (
        p ++ right (node_hash r) ∷ [],
        rw (e, append_assoc) found,
        rw (walk_path-append, walked) (unfold walk_path in refl),
      )

    subpath_lem :
        (t : Transcript) (entry : M) (list : List M) (w : Acc Shorter list) (index : ℕ)
        (result : List MerkleNeighbor)
        → get_elem? list index ≡ some entry
        → Leads t entry (build_tree t list w) index (length list) result
    unfolding build_tree subpath
    subpath_lem t entry [] w index result e = cc
    subpath_lem t entry (x ∷ []) w zero result e = ([], refl, unfold walk_path in cc)
    subpath_lem t entry (x ∷ []) w (suc i) result e = cc
    subpath_lem t entry (x ∷ y ∷ rest) (Acc.intro _ smaller) index result e =
        let list = x ∷ y ∷ rest in
        let k = next_power_of_two (length list) / 2 in
        let lt = half_power-lt (length list) (omega arith) in
        let wl = smaller _ (take_half-Shorter x y rest) in
        let wr = smaller _ (drop_half-Shorter x y rest) in
        let l = build_tree t (take k list) wl in
        let r = build_tree t (drop k list) wr in
        elim (Bool-cases (leb k index)) [
          | inl e' ↦ Leads-right t entry l r index (length list) result e' (
              rw (length-drop k list) at (
                subpath_lem t entry (drop k list) (smaller _ (drop_half-Shorter x y rest))
                  (index - k) (left (node_hash l) ∷ result)
                  (get_elem?-drop k index list (leb→le k index e') ∙ e)))
          | inr e' ↦ Leads-left t entry l r index (length list) result e' (
              rw (length-take k list (omega arith)) at (
                subpath_lem t entry (take k list) (smaller _ (take_half-Shorter x y rest)) index
                  (right (node_hash r) ∷ result)
                  (get_elem?-take k index list (leb→lt k index e') ∙ e)))
        ]

    -- For each entry of the list `create_path` finds a path of inclusion at the entry's index, and
    -- `verify_path` accepts the entry with this path against the hash of the tree.
    pub verify_path-create_path :
        (label : String) (list : List M) (index : ℕ) (entry : M)
        → get_elem? list index ≡ some entry
        → (proof : List MerkleNeighbor) × (create_path (build label list) index ≡ ok proof)
          × (verify_path label entry proof (hash (build label list)) ≡ ok tt)
    unfolding create_path build hash verify_path
    verify_path-create_path label list index entry e =
        let (p, found, walked) =
          subpath_lem (new label) entry list (Shorter_wf.apply list) index [] e in
        (
          p,
          rw (length-get_elem? index list e, found, append-nil),
          rw (
            walked,
            bytes_eq_refl (node_hash (build_tree (new label) list (Shorter_wf.apply list))),
          ),
        )
