-- ===== src/Encoding/Safe.antt =====
-- The readers never leave the slice, and never panic on a reader that `parse` made.
use zioncoin_poc.Prelude.{
  ℕ, ◌+◌, ◌≤◌, ◌≡◌, ◌≢◌, refl, ◌∙◌, Bool, true, false, [], ◌∷◌, arith, length, if◌then◌else◌,
  length-take, length-drop, drop, le→leb, tests, Bool-cases, inl, inr, ◌-◌, ltb, ◌==◌,
}
use zioncoin_poc.Prelude.Result.{Result, ok, err, panic, stuck}
use zioncoin_poc.Prelude.Bytes.{Bytes}
use zioncoin_poc.External.{LittleEndian}
use zioncoin_poc.Errors.{VmError, trailing_bytes}
use zioncoin_poc.Encoding.{
  SliceReader, Reader, first, ◌>>=◌, pure, fail, new, len, parse, read_bytes, read_u8, read_u8x32,
  read_u8x64, read_u32, read_u64, read_size, read_point,
}

-- A reader that never leaves its slice.
pub record IsValid (r : SliceReader) : Type 0 where
  pub start-le-end : r.start ≤ r.end
  pub end-eq-length : r.end ≡ length r.whole

pub new-IsValid : (bytes : Bytes) → IsValid (new bytes)
new-IsValid bytes = record { start-le-end = omega arith; end-eq-length = refl }

-- What a reader method did: an error, or a value after which the reader is valid and has at most
-- as much left, and no panic.
pub data Safe {ℓ} {A : Type ℓ} (r : SliceReader) : Result VmError (A × SliceReader) → Type ℓ where
  read :
      {a : A} {r' : SliceReader}
      → IsValid r'
      → r'.whole ≡ r.whole
      → r.start ≤ r'.start
      → Safe r (ok (a, r'))
  refused : {e : VmError} → Safe r (err e)

-- A method that is safe from every valid reader.
pub record IsSafe {ℓ} {A : Type ℓ} (p : Reader A) : Type ℓ where
  pub from : (r : SliceReader) → IsValid r → Safe r (p r)

module _ {ℓ} {A : Type ℓ} where
  pub pure-IsSafe : (a : A) → IsSafe (pure a)
  pure-IsSafe a = record { from = λ r v. read v refl (omega arith) }

  pub fail-IsSafe : (e : VmError) → IsSafe (fail {A = A} e)
  fail-IsSafe e = record { from = λ r v. refused }

  pub if-IsSafe : (b : Bool) {p q : Reader A} → IsSafe p → IsSafe q → IsSafe (if b then p else q)
  if-IsSafe true hp hq = hp
  if-IsSafe false hp hq = hq

Safe-after {ℓ} :
    {B : Type ℓ} {r r' : SliceReader} {o : Result VmError (B × SliceReader)}
    → r'.whole ≡ r.whole
    → r.start ≤ r'.start
    → Safe r' o
    → Safe r o
Safe-after w s (read v' w' s') = read v' (w' ∙ w) (omega arith)
Safe-after w s refused = refused

-- The rest of a `do` block runs where the first step left off, and may use what that step returned.
module _ {ℓ κ} {A : Type ℓ} {B : Type κ} (p : Reader A) (f : A → Reader B) where
  continue-Safe :
      (r : SliceReader)
      → ((a : A) (r' : SliceReader) → p r ≡ ok (a, r') → IsSafe (f a))
      → (o : Result VmError (A × SliceReader)) → p r ≡ o
      → Safe r o
      → Safe r (elim o [ ok q ↦ f q.0 q.1 | err e ↦ err e | panic ↦ panic | stuck ↦ stuck ])
  continue-Safe r kf o e (read {a} {r'} v w s) = Safe-after w s ((kf a r' e).from r' v)
  continue-Safe r kf o e refused = refused

  pub bind_run-IsSafe :
      IsSafe p
      → ((r : SliceReader) (a : A) (r' : SliceReader) → p r ≡ ok (a, r') → IsSafe (f a))
      → IsSafe (p >>= f)
  bind_run-IsSafe hp kf = record { from = λ r v. continue-Safe r (kf r) (p r) refl (hp.from r v) }

  pub bind-IsSafe : IsSafe p → ((a : A) → IsSafe (f a)) → IsSafe (p >>= f)
  bind-IsSafe hp kf = bind_run-IsSafe hp (λ _ a _ _. kf a)

-- `read_bytes` returns as many bytes as it was asked for.
pub read_bytes-IsSafe : (n : ℕ) → IsSafe (read_bytes n)
unfolding read_bytes
read_bytes-IsSafe n = record {
  from = λ r v. elim (Bool-cases (ltb (r.end - r.start) n)) [
    | inl short ↦ rw short refused
    | inr enough ↦
        rw (enough, le→leb (r.start + n) (length r.whole) (omega (tests, v)))
          (read
            (record { start-le-end = omega (tests, v, enough); end-eq-length = v.end-eq-length })
            refl (omega arith))
  ];
}

length-read_bytes :
    (n : ℕ) (r : SliceReader) {b : Bytes} {r' : SliceReader}
    → read_bytes n r ≡ ok (b, r')
    → length b ≡ n
unfolding read_bytes
length-read_bytes n r h =
    ground (arith, length-take n (drop r.start r.whole), length-drop r.start r.whole)

first-IsSafe : (b : Bytes) → length b ≡ 1 → IsSafe (first b)
unfolding first
first-IsSafe [] h = absurd (omega arith)
first-IsSafe (x ∷ b) h = pure-IsSafe x

-- `bytes[0]` is in bounds, since `read_bytes(1)` returned one byte.
pub read_u8-IsSafe : IsSafe read_u8
unfolding read_u8
read_u8-IsSafe =
    bind_run-IsSafe (read_bytes 1) first (read_bytes-IsSafe 1)
      λ r b r' e. first-IsSafe b (length-read_bytes 1 r e)

pub read_u8x32-IsSafe : IsSafe read_u8x32
unfolding read_u8x32
read_u8x32-IsSafe = read_bytes-IsSafe 32

pub read_u8x64-IsSafe : IsSafe read_u8x64
unfolding read_u8x64
read_u8x64-IsSafe = read_bytes-IsSafe 64

pub read_point-IsSafe : IsSafe read_point
unfolding read_point
read_point-IsSafe = read_bytes-IsSafe 32

module _ ⦃le : LittleEndian⦄ where
  pub read_u32-IsSafe : IsSafe read_u32
  unfolding read_u32
  read_u32-IsSafe = bind-IsSafe _ _ (read_bytes-IsSafe 4) (λ b. pure-IsSafe _)

  pub read_u64-IsSafe : IsSafe read_u64
  unfolding read_u64
  read_u64-IsSafe = bind-IsSafe _ _ (read_bytes-IsSafe 8) (λ b. pure-IsSafe _)

  pub read_size-IsSafe : IsSafe read_size
  unfolding read_size
  read_size-IsSafe = bind-IsSafe _ _ read_u32-IsSafe (λ n. pure-IsSafe n)

-- `parse` with a safe method never panics, whatever the bytes.
pub parse-ne-panic {ℓ} :
    {A : Type ℓ} (bytes : Bytes) (p : Reader A) → IsSafe p → parse bytes p ≢ panic
unfolding parse
parse-ne-panic {A} bytes p hp e = never (p (new bytes)) (hp.from (new bytes) (new-IsValid bytes)) e
  where
    never :
        (o : Result VmError (A × SliceReader))
        → Safe (new bytes) o
        → elim o [
          | ok q ↦ if len q.1 == 0 then ok q.0 else err trailing_bytes
          | err e ↦ err e
          | panic ↦ panic
          | stuck ↦ stuck
        ]
          ≢ panic
    never o (read v w s) e = ground arith
    never o refused e = cc
