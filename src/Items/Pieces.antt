-- ===== src/Items/Pieces.antt =====
-- Arrays, lengths and counts, as the parsers of the program's data read them.
use native.Mathlib.Decide.{ℕ_discrete}
use native.Mathlib.Nat.{ℕ_set}
use zioncoin_poc.Prelude.{
  ℕ, ◌%◌, ◌^◌, ◌≤◌, ◌<◌, ◌≡◌, ap, [], ◌++◌, arith, append-nil, le→ltb, length, length-append,
}
use zioncoin_poc.Prelude.Result
use zioncoin_poc.Prelude.Result.{ok}
use zioncoin_poc.Prelude.Bytes.{Bytes}
use zioncoin_poc.External.{LittleEndian}
use zioncoin_poc.Encoding.{Reader, ◌>>=◌, ◌>>◌, pure, read_size, read_bytes}
use zioncoin_poc.Encoding.Reads.{
  len-reader_at, Reads, Reads-bind, Reads-then, Reads-pure, Reads-read_u8x32, Reads-read_point,
  Reads-read_size, Reads-read_bytes,
}
use zioncoin_poc.Items.{Bytes32}
use zioncoin_poc.Items.Encode.{as_u32}
use zioncoin_poc.Items.Decode.{to_array, read_array, read_point_array, check_count}
use zioncoin_poc.Items.Lengths.{Appends}

to_array-bytes32 : (p : Bytes32) → to_array p.bytes32 ≡ pure p
unfolding to_array
to_array-bytes32 p = go (ℕ_discrete (length p.bytes32) 32)
  where
    go :
        (d : Dec (length p.bytes32 ≡ 32))
        → elim d [
          | yes e ↦ pure (record { bytes32 = p.bytes32; is_32 = e })
          | no ne ↦ λ r. Result.panic
        ]
          ≡ pure p
    go (yes e) =
        ap (λ (e' : length p.bytes32 ≡ 32). pure (record { bytes32 = p.bytes32; is_32 = e' }))
          (ℕ_set _ _ e p.is_32)
    go (no ne) = absurd (ne p.is_32)

-- A last step that reads nothing
pub Reads-last :
    {A B : Type 0} {p : Reader A} (f : A → Reader B) {xs : Bytes} {a : A} {b : B}
    → Reads p xs a
    → Reads (f a) [] b
    → Reads (p >>= f) xs b
Reads-last f {xs} hp hf = rw append-nil at (Reads-bind f hp hf)

pub Reads-read_array : (p : Bytes32) → Reads read_array p.bytes32 p
unfolding read_array
Reads-read_array p =
    Reads-last to_array (Reads-read_u8x32 p.bytes32 p.is_32)
      (rw (to_array-bytes32 p) (Reads-pure p))

pub Reads-read_point_array : (p : Bytes32) → Reads read_point_array p.bytes32 p
unfolding read_point_array
Reads-read_point_array p =
    Reads-last to_array (Reads-read_point p.bytes32 p.is_32)
      (rw (to_array-bytes32 p) (Reads-pure p))

-- Where what follows takes at least `k` bytes, the count passes.
pub Reads-check_count :
    {A : Type 0} (k : ℕ) (body : Reader A) {xs : Bytes} {a : A}
    → k ≤ length xs
    → Reads body xs a
    → Reads (check_count k >> body) xs a
unfolding check_count
Reads-check_count k body {xs} enough h = record {
  at = λ front rest.
      rw
        (
          ◌>>◌,
          ◌>>=◌,
          len-reader_at front (xs ++ rest),
          le→ltb (length (xs ++ rest)) k (omega (arith, enough, length-append xs rest)),
        )
        (h.at front rest);
}

module _ ⦃le : LittleEndian⦄ where
  -- A length, then so many bytes
  pub Reads-sized :
      {A : Type 0} (f : Bytes → A) {encoder : Bytes → Bytes} {n : ℕ} (a : Appends encoder n)
      → n < 2 ^ 32
      → Reads
          (read_size >>= λ n. read_bytes n >>= λ bytes. pure (f bytes))
          (le.write_u32 (as_u32 n) ++ a.bytes)
          (f a.bytes)
  Reads-sized f {encoder} {n} a h =
      let small : n % 2 ^ 32 ≡ n = omega (arith, h) in
      rw small
        (Reads-bind _ (Reads-read_size n h) (Reads-then f (Reads-read_bytes a.bytes n a.count)))
