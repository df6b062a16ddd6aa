-- ===== src/Merkle/Power.antt =====
-- `usize::next_power_of_two` of the standard library, and the order on lists by length.
use mathlib.Core.WellFounded.{Acc, WellFounded}
use zioncoin_poc.Prelude.{
  ℕ, zero, suc, ◌+◌, ◌*◌, ◌/◌, ◌≤◌, ◌<◌, ◌≡◌, refl, List, ◌∷◌, arith, leb, if◌then◌else◌, length,
  take, drop, length-take, length-drop, Bool-cases, inl, inr, le→leb,
}

-- The powers from `p` on, up to the first that is at least `n`.
power_loop : ℕ → ℕ → ℕ → ℕ
power_loop zero p n = p
power_loop (suc f) p n = let more = power_loop f (2 * p) n in if leb n p then p else more

-- Each round doubles, so `n` rounds are enough.
unfoldable pub next_power_of_two : ℕ → ℕ
unfolding power_loop
next_power_of_two n = power_loop n 1 n

power_loop_done : (f p n : ℕ) → n ≤ p → power_loop f p n ≡ p
unfolding power_loop
power_loop_done zero p n h = refl
power_loop_done (suc f) p n h = rw (le→leb n p h)

power_loop_half :
    (f p n : ℕ)
    → 1 ≤ p
    → p < n
    → n ≤ p + f
    → (1 ≤ power_loop f p n / 2)
      × (power_loop f p n / 2 < n)
      × (n ≤ power_loop f p n / 2 + power_loop f p n / 2)
unfolding power_loop
power_loop_half zero p n hp lt fuel = absurd (omega arith)
power_loop_half (suc f) p n hp lt fuel = elim (Bool-cases (leb n (2 * p))) [
  | inl done ↦ ground (arith, power_loop_done f (2 * p) n)
  | inr more ↦ ground (arith, power_loop_half f (2 * p) n)
]

module _ (n : ℕ) (h : 1 < n) where
  pub half_power_pos : 1 ≤ next_power_of_two n / 2
  unfolding next_power_of_two
  half_power_pos = (power_loop_half n 1 n (omega arith) h (omega arith)).0

  pub half_power-lt : next_power_of_two n / 2 < n
  unfolding next_power_of_two
  half_power-lt = (power_loop_half n 1 n (omega arith) h (omega arith)).1

  pub le-two_half_power : n ≤ next_power_of_two n / 2 + next_power_of_two n / 2
  unfolding next_power_of_two
  le-two_half_power = (power_loop_half n 1 n (omega arith) h (omega arith)).2

module _ {A : Type 0} where
  abbrev pub Shorter : List A → List A → Type 0
  Shorter xs ys = length xs < length ys

  unfoldable pub Acc_below : (n : ℕ) (xs : List A) → length xs < n → Acc Shorter xs
  Acc_below zero xs h = absurd (omega arith)
  Acc_below (suc n) xs h = Acc.intro xs (λ ys hy. Acc_below n ys (omega arith))

  unfoldable pub Shorter_wf : WellFounded Shorter
  unfolding Acc_below
  Shorter_wf = record { apply = λ xs. Acc_below (suc (length xs)) xs (omega arith) }

  module _ (x y : A) (rest : List A) where
    pub take_half-Shorter :
        Shorter (take (next_power_of_two (length (x ∷ y ∷ rest)) / 2) (x ∷ y ∷ rest)) (x ∷ y ∷ rest)
    take_half-Shorter =
        let n = length (x ∷ y ∷ rest) in
        let k = half_power-lt n (omega arith) in
        omega (arith, length-take (next_power_of_two n / 2) (x ∷ y ∷ rest) (omega arith))

    pub drop_half-Shorter :
        Shorter (drop (next_power_of_two (length (x ∷ y ∷ rest)) / 2) (x ∷ y ∷ rest)) (x ∷ y ∷ rest)
    drop_half-Shorter =
        let n = length (x ∷ y ∷ rest) in
        let k = half_power_pos n (omega arith) in
        omega (arith, length-drop (next_power_of_two n / 2) (x ∷ y ∷ rest))
