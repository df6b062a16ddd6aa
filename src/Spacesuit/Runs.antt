-- ===== src/Spacesuit/Runs.antt =====
-- A run of the ordering of values by flavor, with the sample constraint system.
use mathlib.Core.List.{Permᴰ}
use zioncoin_poc.Prelude.{◌≡◌, refl, some, List, [], ◌∷◌, map}
use zioncoin_poc.Prelude.Result.{ok}
use zioncoin_poc.External.Samples.{
  scalars_sample, curve_sample, field_sample, cs_sample, system_sample,
}
use zioncoin_poc.Items.{pos}
use zioncoin_poc.Spacesuit.{AllocatedValue}
use zioncoin_poc.Spacesuit.Mix.{Amount, order_by_flavor}
use zioncoin_poc.Spacesuit.Order.{order_by_flavor-reorders}

abbrev amounts : List Amount
amounts = (pos 3, 5) ∷ (pos 4, 2) ∷ (pos 1, 5) ∷ []

abbrev ordered : List Amount
ordered = (pos 3, 5) ∷ (pos 1, 5) ∷ (pos 4, 2) ∷ []

abbrev allocated : List AllocatedValue
allocated =
    record { q = 1; f = 2; assignment = some (pos 3, 5) }
    ∷ record { q = 4; f = 5; assignment = some (pos 1, 5) }
    ∷ record { q = 7; f = 8; assignment = some (pos 4, 2) }
    ∷ []

amounts-ordered : order_by_flavor amounts 1 ≡ ok ((allocated, ordered), 10)
unfolding order_by_flavor
amounts-ordered = refl

order_by_flavor-reorders_example :
    Permᴰ ordered amounts
    × (map (λ (v : AllocatedValue). v.assignment) allocated ≡ map some ordered)
order_by_flavor-reorders_example =
    order_by_flavor-reorders amounts 1 ((allocated, ordered), 10) amounts-ordered
