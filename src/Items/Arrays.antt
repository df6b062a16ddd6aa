-- ===== src/Items/Arrays.antt =====
-- Arrays of 32 bytes: an array that is filled from a slice keeps its length, whatever the slice.
use zioncoin_poc.Prelude.{ℕ, zero, suc, ◌≡◌, refl, ap, [], ◌∷◌, length, arith}
use zioncoin_poc.Prelude.Bytes.{Bytes}
use zioncoin_poc.Items.{Bytes32}

-- The first `n` bytes, and zeros for those that there are not
unfoldable pub fill : ℕ → Bytes → Bytes
fill zero bytes = []
fill (suc n) [] = 0 ∷ fill n []
fill (suc n) (b ∷ bytes) = b ∷ fill n bytes

pub length-fill : (n : ℕ) (bytes : Bytes) → length (fill n bytes) ≡ n
unfolding fill
length-fill zero bytes = refl
length-fill (suc n) [] = ap suc (length-fill n [])
length-fill (suc n) (b ∷ bytes) = ap suc (length-fill n bytes)

pub fill_lem : (n : ℕ) (bytes : Bytes) → length bytes ≡ n → fill n bytes ≡ bytes
unfolding fill
fill_lem zero [] h = refl
fill_lem zero (b ∷ bytes) h = absurd (omega arith)
fill_lem (suc n) [] h = absurd (omega arith)
fill_lem (suc n) (b ∷ bytes) h = ap (λ xs. b ∷ xs) (fill_lem n bytes (omega arith))

-- `let mut buf = [0u8; 32]`, filled
unfoldable pub array_32 : Bytes → Bytes32
unfolding fill
array_32 bytes = record { bytes32 = fill 32 bytes; is_32 = length-fill 32 bytes }
