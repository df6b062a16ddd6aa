-- ===== src/Encoding/Reads.antt =====
-- The readers take their bytes off the front of what is left, never leave the slice, and never
-- panic on a reader that `parse` made.
use zioncoin_poc.Prelude.{
  ℕ, ◌≤◌, ◌<◌, ◌^◌, ◌≡◌, refl, [], ◌∷◌, ◌++◌, arith, append-nil, append_assoc, length, take, drop,
  length-append, take-append, drop-append, length-take, append-take-drop,
}
use zioncoin_poc.Prelude.Result.{ok, err}
use zioncoin_poc.Prelude.Bytes.{Bytes}
use zioncoin_poc.External.{LittleEndian}
use zioncoin_poc.Errors.{format_error}
use zioncoin_poc.Encoding.{
  SliceReader, Reader, ◌>>=◌, pure, len, parse, read_bytes, read_u8, read_u8x32, read_u8x64,
  read_u32, read_u64, read_size, read_point,
}

-- The reader that has `front` behind it and `rest` before it.
unfoldable pub reader_at : Bytes → Bytes → SliceReader
reader_at front rest = record {
  whole = front ++ rest;
  start = length front;
  end = length (front ++ rest);
}

-- `p` takes exactly `bytes` off the front, and returns `a`.
pub record Reads {ℓ} {A : Type ℓ} (p : Reader A) (bytes : Bytes) (a : A) : Type ℓ where
  pub at :
      (front rest : Bytes)
      → p (reader_at front (bytes ++ rest)) ≡ ok (a, reader_at (front ++ bytes) rest)

pub len-reader_at : (front rest : Bytes) → len (reader_at front rest) ≡ length rest
unfolding len reader_at
len-reader_at front rest = omega (arith, length-append front rest)

-- What is left is enough: the bytes are read.
pub read_bytes_enough :
    (n : ℕ) (front rest : Bytes)
    → n ≤ length rest
    → read_bytes n (reader_at front rest)
      ≡ ok (take n rest, reader_at (front ++ take n rest) (drop n rest))
unfolding read_bytes reader_at
read_bytes_enough n front rest h = ground (
  arith,
  length-append front rest,
  length-append front (take n rest),
  length-take n rest,
  drop-append (length front) front rest refl,
  append_assoc front (take n rest) (drop n rest),
  append-take-drop n rest,
)

pub read_bytes_short :
    (n : ℕ) (front rest : Bytes)
    → length rest < n
    → read_bytes n (reader_at front rest) ≡ err format_error
unfolding read_bytes reader_at
read_bytes_short n front rest h = ground (arith, length-append front rest)

pub Reads-bind {ℓ κ} :
    {A : Type ℓ} {B : Type κ} {p : Reader A} (f : A → Reader B) {xs ys : Bytes} {a : A} {b : B}
    → Reads p xs a
    → Reads (f a) ys b
    → Reads (p >>= f) (xs ++ ys) b
Reads-bind f {xs} {ys} hp hf = record {
  at = λ front rest.
      rw (append_assoc xs ys rest, ◌>>=◌, hp.at front (ys ++ rest), hf.at (front ++ xs) rest)
        (rw (append_assoc front xs ys));
}

-- A last step that reads nothing.
pub Reads-pure {ℓ} : {A : Type ℓ} (a : A) → Reads (pure a) [] a
Reads-pure a = record { at = λ front rest. rw append-nil }

-- To `map` a value read.
pub Reads-then {ℓ κ} :
    {A : Type ℓ} {B : Type κ} {p : Reader A} (f : A → B) {xs : Bytes} {a : A}
    → Reads p xs a
    → Reads (p >>= λ x. pure (f x)) xs (f a)
Reads-then f hp = record { at = λ front rest. rw (◌>>=◌, hp.at front rest) }

pub Reads-read_bytes : (xs : Bytes) (n : ℕ) → length xs ≡ n → Reads (read_bytes n) xs xs
Reads-read_bytes xs n h = record {
  at = λ front rest.
      rw (take-append n xs rest h, drop-append n xs rest h) at
        (read_bytes_enough n front (xs ++ rest) (omega (arith, length-append xs rest)));
}

pub Reads-read_u8 : (b : ℕ) → Reads read_u8 (b ∷ []) b
unfolding read_u8
Reads-read_u8 b = record {
  at = λ front rest. rw (◌>>=◌, (Reads-read_bytes (b ∷ []) 1 refl).at front rest);
}

pub Reads-read_u8x32 : (xs : Bytes) → length xs ≡ 32 → Reads read_u8x32 xs xs
unfolding read_u8x32
Reads-read_u8x32 xs h = Reads-read_bytes xs 32 h

pub Reads-read_u8x64 : (xs : Bytes) → length xs ≡ 64 → Reads read_u8x64 xs xs
unfolding read_u8x64
Reads-read_u8x64 xs h = Reads-read_bytes xs 64 h

pub Reads-read_point : (xs : Bytes) → length xs ≡ 32 → Reads read_point xs xs
unfolding read_point
Reads-read_point xs h = Reads-read_bytes xs 32 h

module _ ⦃le : LittleEndian⦄ where
  pub Reads-read_u32 : (x : ℕ) → x < 2 ^ 32 → Reads read_u32 (le.write_u32 x) x
  unfolding read_u32
  Reads-read_u32 x h =
      rw (le.read_u32-write_u32 x h) at
        (Reads-then le.read_u32 (Reads-read_bytes (le.write_u32 x) 4 (le.length-write_u32 x)))

  pub Reads-read_u64 : (x : ℕ) → x < 2 ^ 64 → Reads read_u64 (le.write_u64 x) x
  unfolding read_u64
  Reads-read_u64 x h =
      rw (le.read_u64-write_u64 x h) at
        (Reads-then le.read_u64 (Reads-read_bytes (le.write_u64 x) 8 (le.length-write_u64 x)))

  pub Reads-read_size : (x : ℕ) → x < 2 ^ 32 → Reads read_size (le.write_u32 x) x
  unfolding read_size
  Reads-read_size x h = Reads-then (λ n. n) (Reads-read_u32 x h)

-- What a method reads in full, `parse` accepts.
pub parse-Reads {ℓ} :
    {A : Type ℓ} {p : Reader A} {xs : Bytes} {a : A} → Reads p xs a → parse xs p ≡ ok a
unfolding parse reader_at
parse-Reads {xs} hp =
    let e = rw append-nil at (hp.at [] []) in rw (e, parse) (ground (arith, len-reader_at xs []))

-- `p` takes all that is left, which is `bytes`, and returns `a`.
pub record ReadsAll {ℓ} {A : Type ℓ} (p : Reader A) (bytes : Bytes) (a : A) : Type ℓ where
  pub all : (front : Bytes) → p (reader_at front bytes) ≡ ok (a, reader_at (front ++ bytes) [])

pub ReadsAll-bind {ℓ κ} :
    {A : Type ℓ} {B : Type κ} {p : Reader A} (f : A → Reader B) {xs ys : Bytes} {a : A} {b : B}
    → Reads p xs a
    → ReadsAll (f a) ys b
    → ReadsAll (p >>= f) (xs ++ ys) b
ReadsAll-bind f {xs} {ys} hp hf = record {
  all = λ front. rw (◌>>=◌, hp.at front ys, hf.all (front ++ xs)) (rw (append_assoc front xs ys));
}

pub ReadsAll-then {ℓ κ} :
    {A : Type ℓ} {B : Type κ} {p : Reader A} (f : A → Reader B) {xs : Bytes} {a : A} {b : B}
    → ReadsAll p xs a
    → ReadsAll (f a) [] b
    → ReadsAll (p >>= f) xs b
ReadsAll-then f {xs} hp hf = record {
  all = λ front. rw (◌>>=◌, hp.all front, hf.all (front ++ xs), append-nil);
}

pub ReadsAll-pure {ℓ} : {A : Type ℓ} (a : A) → ReadsAll (pure a) [] a
ReadsAll-pure a = record { all = λ front. rw append-nil }

pub parse-ReadsAll {ℓ} :
    {A : Type ℓ} {p : Reader A} {xs : Bytes} {a : A} → ReadsAll p xs a → parse xs p ≡ ok a
unfolding parse reader_at
parse-ReadsAll {xs} hp = rw (hp.all [], parse) (ground (arith, len-reader_at xs []))
