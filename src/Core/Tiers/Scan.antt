-- ===== src/Core/Tiers/Scan.antt =====
-- The tier rules, the stable sort by threshold, and the two loops that select a tier.
use comission_mgmt.Prelude.{Bool, true, Option, none, some, List, [], ◌∷◌, if◌then◌else◌, ◌&&◌}
use comission_mgmt.Core.Number.{Number, ◌⊖◌, lt, max}

-- `TierRule`.
pub record TierRule {ℓ} (A : Type ℓ) : Type ℓ where
  pub threshold : A
  pub rate : A

-- `TierProgressInput`.
pub record TierProgressInput {ℓ} (A : Type ℓ) : Type ℓ where
  pub current_period_production : A
  pub tiers : List (TierRule A)
  pub base_rate : A

-- `TierProgressOutput`.
pub record TierProgressOutput {ℓ} (A : Type ℓ) : Type ℓ where
  pub current_period_production : A
  pub current_tier_rate : A
  pub next_tier_threshold : Option A
  pub remaining_to_next_tier : Option A

module _ {ℓ} {A : Type ℓ} ⦃n : Number A⦄ where
  -- `[...tiers].sort((a, b) => a.threshold - b.threshold)`: the language promises a stable sort,
  -- so that there is one result, which an insertion sort from the left computes too.
  unfoldable pub insert : TierRule A → List (TierRule A) → List (TierRule A)
  insert t [] = t ∷ []
  insert t (u ∷ us) = if lt t.threshold u.threshold then t ∷ u ∷ us else u ∷ insert t us

  unfoldable pub sort_from : List (TierRule A) → List (TierRule A) → List (TierRule A)
  sort_from sorted [] = sorted
  sort_from sorted (t ∷ ts) = sort_from (insert t sorted) ts

  unfoldable pub sort : List (TierRule A) → List (TierRule A)
  unfolding sort_from insert
  sort ts = sort_from [] ts

  -- The `for` loop of `computeTierProgress`: the rate, and the tiers behind the last match, whose
  -- head is `sorted[matchedTierIdx + 1]`.
  unfoldable pub scan : A → List (TierRule A) → A → List (TierRule A) → A × List (TierRule A)
  scan production [] rate behind = (rate, behind)
  scan production (t ∷ ts) rate behind =
      scan production ts (if n.le t.threshold production then t.rate else rate)
        (if n.le t.threshold production then ts else behind)

  abbrev pub next_of : List (TierRule A) → Option A
  next_of [] = none
  next_of (t ∷ ts) = some t.threshold

  abbrev pub remaining_of : A → Option A → Option A
  remaining_of production none = none
  remaining_of production (some t) = some (max n.nought (t ⊖ production))

  unfoldable pub compute_tier_progress : TierProgressInput A → TierProgressOutput A
  unfolding sort scan
  compute_tier_progress i =
      let sorted = sort i.tiers in
      let (rate, behind) = scan i.current_period_production sorted i.base_rate sorted in
      record {
        current_period_production = i.current_period_production;
        current_tier_rate = rate;
        next_tier_threshold = next_of behind;
        remaining_to_next_tier = remaining_of i.current_period_production (next_of behind);
      }

  -- The tier loop of `applyTiers`: among the tiers that the production reaches, the first one with
  -- the highest threshold.
  abbrev pub replaces : Option (TierRule A) → TierRule A → Bool
  replaces none t = true
  replaces (some s) t = lt s.threshold t.threshold

  unfoldable pub select_tier : A → Option (TierRule A) → List (TierRule A) → Option (TierRule A)
  select_tier production selected [] = selected
  select_tier production selected (t ∷ ts) =
      select_tier production
        (if n.le t.threshold production && replaces selected t then some t else selected) ts

  abbrev pub rate_of : Option (TierRule A) → A → A
  rate_of none base = base
  rate_of (some t) base = t.rate

  -- `validateTiers`: `false` is the thrown error.
  abbrev pub ascends : A → List (TierRule A) → Bool
  ascends previous [] = true
  ascends previous (t ∷ ts) = lt previous t.threshold && ascends t.threshold ts

  unfoldable pub validate_tiers : List (TierRule A) → Bool
  validate_tiers [] = true
  validate_tiers (t ∷ ts) = ascends t.threshold ts
