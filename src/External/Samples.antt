-- ===== src/External/Samples.antt =====
-- Concrete instances of the external interfaces, for tests.
use zioncoin_poc.Prelude.{
  List, true, ℕ, zero, suc, ◌+◌, ◌-◌, ◌*◌, ◌/◌, ◌%◌, ◌<◌, ◌^◌, ◌≡◌, refl, sym, ap, ◌∙◌, Option,
  none, some, [], ◌∷◌, ◌++◌, ◌==◌, arith, append_assoc, length, take, drop, replicate, take-append,
  drop-append,
}
use zioncoin_poc.Prelude.Bytes.{Bytes}
use zioncoin_poc.External.{
  LittleEndian, Merlin, Scalars, R1cs, Curve, ScalarField, ConstraintSystem, PedersenGens,
  RandomizableSystem, R1csVerifier,
}
use native.Mathlib.Nat.{mul_comm}

-- The `n` lowest bytes of `x`, lowest first.
abbrev pub le_bytes : ℕ → ℕ → Bytes
le_bytes zero x = []
le_bytes (suc n) x = (x % 256) ∷ le_bytes n (x / 256)

abbrev pub le_value : Bytes → ℕ
le_value [] = 0
le_value (b ∷ bs) = b + 256 * le_value bs

pub le_value-le_bytes_u32 : (x : ℕ) → x < 2 ^ 32 → le_value (le_bytes 4 x) ≡ x
le_value-le_bytes_u32 x h = omega arith

pub le_value-le_bytes_u64 : (x : ℕ) → x < 2 ^ 64 → le_value (le_bytes 8 x) ≡ x
le_value-le_bytes_u64 x h = omega arith

instance abbrev pub le_sample : LittleEndian
le_sample = record {
  write_u32 = le_bytes 4;
  read_u32 = le_value;
  write_u64 = le_bytes 8;
  read_u64 = le_value;
  length-write_u32 = λ x. refl;
  length-write_u64 = λ x. refl;
  read_u32-write_u32 = le_value-le_bytes_u32;
  read_u64-write_u64 = le_value-le_bytes_u64;
}

-- A transcript that keeps all that was appended, and a challenge that gives it back.
instance abbrev pub merlin_sample : Merlin
merlin_sample = record {
  Transcript = Bytes;
  new = λ label. [];
  append_message = λ label message t. t ++ (length message ∷ message);
  append_u64 = λ label x t. t ++ (x ∷ []);
  challenge_bytes = λ label n t. (t, t);
}

cons_injective : {x y : ℕ} {xs ys : Bytes} → (x ∷ xs) ≡ (y ∷ ys) → (x ≡ y) × (xs ≡ ys)
cons_injective e = (cc, cc)

append-cancel_left : (t xs ys : Bytes) → t ++ xs ≡ t ++ ys → xs ≡ ys
append-cancel_left [] xs ys e = e
append-cancel_left (x ∷ t) xs ys e = append-cancel_left t xs ys (cons_injective e).1

-- Two messages, each after its length, are read off a transcript again.
pub frames_differ :
    (t l r l' r' : Bytes)
    → (t ++ (length l ∷ l)) ++ (length r ∷ r) ≡ (t ++ (length l' ∷ l')) ++ (length r' ∷ r')
    → (l ≡ l') × (r ≡ r')
frames_differ t l r l' r' e =
    let cut = append-cancel_left t _ _ (
      rw
        (
          append_assoc t (length l ∷ l) (length r ∷ r),
          append_assoc t (length l' ∷ l') (length r' ∷ r'),
        )
        at e) in
    let c = cons_injective cut in
    let left : l ≡ l' =
      sym (take-append (length l) l (length r ∷ r) refl)
      ∙ ap (take (length l)) c.1
      ∙ take-append (length l) l' (length r' ∷ r') (sym c.0) in
    let right : (length r ∷ r) ≡ (length r' ∷ r') =
      sym (drop-append (length l) l (length r ∷ r) refl)
      ∙ ap (drop (length l)) c.1
      ∙ drop-append (length l) l' (length r' ∷ r') (sym c.0) in
    (left, (cons_injective right).1)

-- A scalar is a number, the first of its 32 bytes.
abbrev scalar_bytes : ℕ → Bytes
scalar_bytes s = s ∷ replicate 31 0

abbrev scalar_of : Bytes → Option ℕ
scalar_of [] = none
scalar_of (s ∷ bytes) = some s

instance abbrev pub scalars_sample : Scalars
scalars_sample = record {
  Scalar = ℕ;
  as_bytes = scalar_bytes;
  from_canonical_bytes = scalar_of;
  length-as_bytes = λ s. refl;
  from_canonical_bytes-as_bytes = λ s. refl;
}

-- A proof is its bytes.
instance abbrev pub r1cs_sample : R1cs
r1cs_sample = record {
  R1csProof = Bytes;
  to_bytes = λ p. p;
  from_bytes = some;
  serialized_size = length;
  length-to_bytes = λ p. refl;
  from_bytes-to_bytes = λ p. refl;
}

-- Points are numbers, and so is the sum that a commitment is.
instance abbrev pub curve_sample : Curve
curve_sample = record {
  Point = ℕ;
  compress = scalar_bytes;
  length-compress = λ p. refl;
  commit = λ value blinding. value + blinding;
  zero = 0;
  from_u64 = λ n. n;
  sub = λ a b. a - b;
}

-- The field of seven elements
instance abbrev pub field_sample : ScalarField
field_sample = record {
  one = 1;
  neg = λ a. (7 - a % 7) % 7;
  add = λ a b. (a + b) % 7;
  mul = λ a b. a * b % 7;
  equal = λ a b. a == b;
  invert = λ a. a * a * a * a * a % 7;
  mul_comm = λ a b. ap (λ m. m % 7) (mul_comm a b);
}

-- Variables are numbers, and the state is the next one.
instance abbrev pub cs_sample : ConstraintSystem
cs_sample = record {
  Variable = ℕ;
  variable_one = 0;
  System = ℕ;
  multiply_gate = λ left right next. (next, next + 1);
}

abbrev weighted_sum : List ℕ → List (Option ℕ) → Option ℕ
weighted_sum (w ∷ ws) (some p ∷ ps) = elim (weighted_sum ws ps) [
  | none ↦ none
  | some sum ↦ some (w * p + sum)
]
weighted_sum (w ∷ ws) (none ∷ ps) = none
weighted_sum ws ps = some 0

instance abbrev pub gens_sample : PedersenGens
gens_sample = record {
  base = 1;
  base_blinding = 5;
  point_add = λ p q. (p + q) % 7;
  point_mul = λ s p. s * p % 7;
  from_bytes_mod_order_wide = λ bytes. length bytes % 7;
  decompress = scalar_of;
  optional_multiscalar_mul = weighted_sum;
  identity = 0;
  is_identity = λ p. p % 7 == 0;
}

-- A constraint system that counts its variables, and callbacks that are not run.
instance abbrev pub system_sample : RandomizableSystem
system_sample = record {
  allocate = λ a next. some (next, next + 1);
  constrain = λ terms next. next;
  allocate_pair = λ a next. some ((next, next + 1, next + 2), next + 3);
  Randomized = ℕ;
  challenge_scalar = λ label next. (next % 7, next);
  multiply_randomized = λ left right next. ((next, next + 1, next + 2), next + 3);
  allocate_multiplier = λ a next. some ((next, next + 1, next + 2), next + 3);
  constrain_randomized = λ terms next. next;
  specify_randomized_constraints = λ callback next. some next;
}

instance abbrev pub r1cs_verifier_sample : R1csVerifier
r1cs_verifier_sample = record {
  new_verifier = λ t. 1;
  commit = λ point next. (next, next + 1);
  append_to_transcript = λ label message next. next;
  verify = λ proof next. true;
}
