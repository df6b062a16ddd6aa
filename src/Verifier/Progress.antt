-- ===== src/Verifier/Progress.antt =====
-- The verifier of zkvm/src/verifier.rs takes at least one byte off its program for an instruction.
use zioncoin_poc.Prelude.{
  ℕ, ◌+◌, ◌-◌, ◌≤◌, ◌<◌, ◌≡◌, refl, sym, ap, ◌∙◌, subst, Bool-cases, inl, inr, Option, some, [],
  ◌∷◌, arith, ◌==◌, length, drop, length-drop, if◌then◌else◌,
}
use zioncoin_poc.Prelude.Result.{Result, ok, err, panic, stuck, >>=-eq-ok, ok-injective}
use zioncoin_poc.Prelude.Bytes.{Bytes}
use zioncoin_poc.External.{LittleEndian, Scalars, Curve}
use zioncoin_poc.Errors.{VmError, trailing_bytes}
use zioncoin_poc.Encoding.{
  SliceReader, Reader, ◌>>=◌, new, len, parse, first, read_bytes, read_u8, skip_trailing_bytes,
}
use zioncoin_poc.Encoding.Safe.{IsValid, new-IsValid, Safe, read, refused, read_u8-IsSafe}
use zioncoin_poc.Items.{Instruction}
use zioncoin_poc.Items.Opcodes.{from_u8}
use zioncoin_poc.Items.Parse.{parse_opcode, parse_instruction}
use zioncoin_poc.Items.Safe.{parse_opcode-IsSafe}
use zioncoin_poc.Verifier.{VerifierRun, instruction_and_rest, next_of_run}

-- What a reader method that returned did
Safe-ok :
    {A : Type 0} {r : SliceReader} {o : Result VmError (A × SliceReader)} (q : A × SliceReader)
    → Safe r o
    → o ≡ ok q
    → IsValid q.1 × (q.1.whole ≡ r.whole) × (r.start ≤ q.1.start)
Safe-ok {A} {r} q (read {a} {r'} v w s) e =
    subst (λ (p : A × SliceReader). IsValid p.1 × (p.1.whole ≡ r.whole) × (r.start ≤ p.1.start))
      (ok-injective e) (v, w, s)
Safe-ok q refused e = cc

bound :
    {A B : Type 0} (o : Result VmError (A × SliceReader)) (f : A → Reader B) (q : B × SliceReader)
    → ◌≡◌ {A = Result VmError (B × SliceReader)}
        (elim o as (λ x. Result VmError (B × SliceReader)) [
          | ok p ↦ f p.0 p.1
          | err e ↦ err e
          | panic ↦ panic
          | stuck ↦ stuck
        ])
        (ok q)
    → (p : A × SliceReader) × (o ≡ ok p) × (f p.0 p.1 ≡ ok q)
bound (ok p) f q e = (p, refl, e)
bound (err x) f q e = cc
bound panic f q e = cc
bound stuck f q e = cc

-- A step of a reader that returned, and what followed it
bind-eq_ok :
    {A B : Type 0} (m : Reader A) (f : A → Reader B) (r : SliceReader) (q : B × SliceReader)
    → (m >>= f) r ≡ ok q
    → (p : A × SliceReader) × (m r ≡ ok p) × (f p.0 p.1 ≡ ok q)
bind-eq_ok m f r q e = bound (m r) f q e

read_bytes-start :
    (n : ℕ) (r : SliceReader) (q : Bytes × SliceReader)
    → read_bytes n r ≡ ok q
    → q.1.start ≡ r.start + n
unfolding read_bytes
read_bytes-start n r q e = ground arith

first-start :
    (b : Bytes) (r : SliceReader) (q : ℕ × SliceReader) → first b r ≡ ok q → q.1.start ≡ r.start
unfolding first
first-start [] r q e = cc
first-start (x ∷ b) r q e = ap (λ (p : ℕ × SliceReader). p.1.start) (sym (ok-injective e))

read_u8-start : (r : SliceReader) (q : ℕ × SliceReader) → read_u8 r ≡ ok q → q.1.start ≡ r.start + 1
unfolding read_u8
read_u8-start r q e =
    let (p, e1, e2) = bind-eq_ok (read_bytes 1) first r q e in
    first-start p.0 p.1 q e2 ∙ read_bytes-start 1 r p e1

module _ ⦃scalars : Scalars⦄ ⦃curve : Curve⦄ ⦃le : LittleEndian⦄ where
  parse_instruction-advances :
      (r : SliceReader) (q : Instruction × SliceReader)
      → IsValid r
      → parse_instruction r ≡ ok q
      → IsValid q.1 × (q.1.whole ≡ r.whole) × (r.start < q.1.start)
  unfolding parse_instruction
  parse_instruction-advances r q valid e =
      let (p, e1, e2) = bind-eq_ok read_u8 (λ byte. parse_opcode byte (from_u8 byte)) r q e in
      let (valid1, same1, after1) = Safe-ok p (read_u8-IsSafe.from r valid) e1 in
      let (valid2, same2, after2) =
        Safe-ok q ((parse_opcode-IsSafe p.0 (from_u8 p.0)).from p.1 valid1) e2 in
      (valid2, same2 ∙ same1, omega (arith, read_u8-start r p e1, after2))

  parsed :
      {A : Type 0} (o : Result VmError (A × SliceReader)) (a : A)
      → ◌≡◌ {A = Result VmError A}
          (elim o as (λ x. Result VmError A) [
            | ok q ↦ if len q.1 == 0 then ok q.0 else err trailing_bytes
            | err e ↦ err e
            | panic ↦ panic
            | stuck ↦ stuck
          ])
          (ok a)
      → (r : SliceReader) × (o ≡ ok (a, r))
  parsed (ok q) a e = elim (Bool-cases (len q.1 == 0)) [
    | inl all ↦ (q.1, ap (λ x. ok (x, q.1)) (ok-injective (rw all at e)))
    | inr more ↦ absurd (cc (rw more at e))
  ]
  parsed (err x) a e = cc
  parsed panic a e = cc
  parsed stuck a e = cc

  rest-lt-length :
      (bytes : Bytes) (p : Instruction × ℕ)
      → parse bytes instruction_and_rest ≡ ok p
      → p.1 < length bytes
  unfolding parse instruction_and_rest skip_trailing_bytes
  rest-lt-length bytes p e =
      let (r, e1) = parsed (instruction_and_rest (new bytes)) p e in
      let (q, e2, e3) = bind-eq_ok parse_instruction _ (new bytes) (p, r) e1 in
      let (valid, same, after) = parse_instruction-advances (new bytes) q (new-IsValid bytes) e2 in
      let left : q.1.end - q.1.start ≡ p.1 =
        ap (λ (x : (Instruction × ℕ) × SliceReader). x.0.1) (ok-injective e3) in
      omega (arith, left, valid.start-le-end, valid.end-eq-length, ap length same, after)

  -- What is left of a run
  abbrev pub remaining : VerifierRun → ℕ
  remaining r = length r.program - r.offset

  pub remaining-next_of_run :
      (r r' : VerifierRun) (i : Instruction)
      → next_of_run r ≡ ok (some i, r')
      → remaining r' < remaining r
  unfolding next_of_run
  remaining-next_of_run r r' i e = elim (Bool-cases (r.offset == length r.program)) [
    | inl done ↦ absurd (cc (rw done at e))
    | inr more ↦
        let (p, e1, e2) =
          >>=-eq-ok (parse (drop r.offset r.program) instruction_and_rest) _ (rw more at e) in
        let same = ok-injective e2 in
        let run : record r { offset = length r.program - p.1 } ≡ r' =
          ap (λ (x : Option Instruction × VerifierRun). x.1) same in
        let less = rest-lt-length (drop r.offset r.program) p e1 in
        rw (← run) (omega (arith, less, length-drop r.offset r.program))
  ]
