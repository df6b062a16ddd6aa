-- ===== src/Utreexo/Path.antt =====
-- zkvm/src/utreexo/path.rs: proofs, their paths, and the directions that a position gives.
-- An iterator over a path is the list of what it yields.
pub mod Order
use zioncoin_poc.Prelude.{
  ℕ, zero, suc, ◌+◌, ◌*◌, ◌/◌, ◌%◌, ◌^◌, ◌≡◌, Option, none, some, List, [], ◌∷◌, ◌++◌, length,
}
use zioncoin_poc.Prelude.Bytes.{Bytes}
use zioncoin_poc.External.{LittleEndian}
use zioncoin_poc.Encoding.{write_u64, write_size, write_bytes}

-- A hash is 32 bytes.
abbrev pub Hash : Type 0
Hash = Bytes

abbrev pub Position : Type 0
Position = ℕ

pub data Side : Type 0 where
  left right : Side

module _ {ℓ} {A : Type ℓ} where
  -- (current, neighbor) as (left, right)
  unfoldable pub order : Side → A → A → A × A
  order left node neighbor = (node, neighbor)
  order right node neighbor = (neighbor, node)

  -- (left, right) as (current, neighbor)
  unfoldable pub choose : Side → A → A → A × A
  choose left l r = (l, r)
  choose right l r = (r, l)

unfoldable pub from_bit : ℕ → Side
from_bit zero = left
from_bit (suc b) = right

pub record ProofPath : Type 0 where
  pub position : Position
  pub neighbors : List Hash

pub record Proof : Type 0 where
  pub generation : ℕ
  pub path : ProofPath

-- Left and right turns, by the bits of `position`.
pub record Directions : Type 0 where
  pub position : Position
  pub depth : ℕ

-- `Iterator::next`, on the depth: the lowest bit first.
next_at : ℕ → Position → Option (Side × Directions)
next_at zero position = none
next_at (suc depth) position =
    some (from_bit (position % 2), record { position = position / 2; depth = depth })

unfoldable pub next : Directions → Option (Side × Directions)
unfolding next_at from_bit
next d = next_at d.depth d.position

-- `position >> depth` on a `u64`: a shift goes by the amount modulo 64.
unfoldable pub shift_right : Position → ℕ → ℕ
shift_right position depth = position / 2 ^ (depth % 64)

-- `DoubleEndedIterator::next_back`: the bit at `depth - 1`.
next_back_at : ℕ → Position → Option (Side × Directions)
unfolding shift_right
next_back_at zero position = none
next_back_at (suc depth) position =
    some (from_bit (shift_right position depth % 2), record { position = position; depth = depth })

unfoldable pub next_back : Directions → Option (Side × Directions)
unfolding next_back_at from_bit
next_back d = next_back_at d.depth d.position

-- What the iterator yields by a stepping function, with the depth as fuel.
drain : (Directions → Option (Side × Directions)) → ℕ → Directions → List Side
drain step zero d = []
drain step (suc fuel) d = elim (step d) [ none ↦ [] | some s ↦ s.0 ∷ drain step fuel s.1 ]

unfoldable pub sides : Directions → List Side
unfolding next drain
sides d = drain next d.depth d

-- `directions.rev()`
unfoldable pub sides_rev : Directions → List Side
unfolding next_back drain
sides_rev d = drain next_back d.depth d

-- `Path::directions`
unfoldable pub directions : ProofPath → Directions
directions path = record { position = path.position; depth = length path.neighbors }

module _ {ℓ κ} {A : Type ℓ} {B : Type κ} where
  unfoldable pub zip : List A → List B → List (A × B)
  zip [] ys = []
  zip (x ∷ xs) [] = []
  zip (x ∷ xs) (y ∷ ys) = (x, y) ∷ zip xs ys

-- `Path::iter`
unfoldable pub iter : ProofPath → List (Side × Hash)
unfolding directions sides zip
iter path = zip (sides (directions path)) path.neighbors

-- `Path::walk_up` over `iter`: the parent's hash and its children's hashes at each step.
unfoldable pub walk_up_from :
    (Hash → Hash → Hash) → Hash → List (Side × Hash) → List (Hash × (Hash × Hash))
unfolding order
walk_up_from intermediate item_hash [] = []
walk_up_from intermediate item_hash ((side, neighbor) ∷ steps) =
    let (l, r) = order side item_hash neighbor in
    let p = intermediate l r in (p, (l, r)) ∷ walk_up_from intermediate p steps

unfoldable pub walk_up : (Hash → Hash → Hash) → ProofPath → Hash → List (Hash × (Hash × Hash))
unfolding iter walk_up_from
walk_up intermediate path item_hash = walk_up_from intermediate item_hash (iter path)

module _ ⦃le : LittleEndian⦄ where
  write_hashes : List Hash → Bytes → Bytes
  unfolding write_bytes
  write_hashes [] buf = buf
  write_hashes (hash ∷ hashes) buf = write_hashes hashes (write_bytes hash buf)

  -- `Encodable for Path`
  unfoldable pub encode_path : ProofPath → Bytes → Bytes
  unfolding write_u64 write_size write_hashes
  encode_path path buf =
      write_hashes path.neighbors (write_size (length path.neighbors) (write_u64 path.position buf))

  -- `Encodable for Proof`
  unfoldable pub encode_proof : Proof → Bytes → Bytes
  unfolding write_u64 encode_path
  encode_proof proof buf = encode_path proof.path (write_u64 proof.generation buf)

unfoldable pub path_serialized_length : ProofPath → ℕ
path_serialized_length path = 8 + 4 + 32 * length path.neighbors

unfoldable pub proof_serialized_length : Proof → ℕ
unfolding path_serialized_length
proof_serialized_length proof = 8 + path_serialized_length proof.path
