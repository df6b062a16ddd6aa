-- ===== src/Utreexo/Nodes/Roots.antt =====
-- `find_root` locates the root under which a position lies.
use zioncoin_poc.Prelude.{
  ℕ, ◌+◌, ◌%◌, ◌^◌, ◌≤◌, ◌<◌, ◌≡◌, refl, none, some, List, [], ◌∷◌, ◌++◌, arith, lt→ltb, le→ltb,
}
use zioncoin_poc.Utreexo.Nodes.{find_root_from, find_root}

module _ {I : Type 0} (level : I → ℕ) where
  -- The number of positions under the roots.
  unfoldable pub total : List I → ℕ
  total [] = 0
  total (item ∷ roots) = 2 ^ level item + total roots

  find_root_from_here :
      (position offset : ℕ) (before after : List I) (item : I)
      → offset + total (before ++ item ∷ after) < 2 ^ 64
      → offset + total before ≤ position
      → position < offset + total before + 2 ^ level item
      → find_root_from level position offset (before ++ item ∷ after) ≡ some item
  unfolding find_root_from total
  find_root_from_here position offset [] after item fits lo hi =
      let e : (offset + 2 ^ level item) % 2 ^ 64 ≡ offset + 2 ^ level item = omega arith in
      rw (e, lt→ltb position (offset + 2 ^ level item) (omega arith))
  find_root_from_here position offset (x ∷ before) after item fits lo hi =
      let e : (offset + 2 ^ level x) % 2 ^ 64 ≡ offset + 2 ^ level x = omega arith in
      rw (e, le→ltb position (offset + 2 ^ level x) (omega arith))
        (find_root_from_here position (offset + 2 ^ level x) before after item (omega arith)
          (omega arith) (omega arith))

  find_root_from-none :
      (position offset : ℕ) (roots : List I)
      → offset + total roots < 2 ^ 64
      → offset + total roots ≤ position
      → find_root_from level position offset roots ≡ none
  unfolding find_root_from total
  find_root_from-none position offset [] fits lo = refl
  find_root_from-none position offset (x ∷ roots) fits lo =
      let e : (offset + 2 ^ level x) % 2 ^ 64 ≡ offset + 2 ^ level x = omega arith in
      rw (e, le→ltb position (offset + 2 ^ level x) (omega arith))
        (find_root_from-none position (offset + 2 ^ level x) roots (omega arith) (omega arith))

  -- Where the roots hold fewer than 2 ^ 64 positions, `find_root` returns the root whose range of
  -- positions has the given one.
  pub find_root_in :
      (position : ℕ) (before after : List I) (item : I)
      → total (before ++ item ∷ after) < 2 ^ 64
      → total before ≤ position
      → position < total before + 2 ^ level item
      → find_root level position (before ++ item ∷ after) ≡ some item
  unfolding find_root
  find_root_in position before after item fits lo hi =
      find_root_from_here position 0 before after item (omega arith) (omega arith) (omega arith)

  -- Past all ranges `find_root` returns nothing.
  pub find_root_past :
      (position : ℕ) (roots : List I)
      → total roots < 2 ^ 64
      → total roots ≤ position
      → find_root level position roots ≡ none
  unfolding find_root
  find_root_past position roots fits lo =
      find_root_from-none position 0 roots (omega arith) (omega arith)
