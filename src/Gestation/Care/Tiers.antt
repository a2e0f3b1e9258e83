-- ===== src/Gestation/Care/Tiers.antt =====
-- The care tiers taper: their classes, how long each is given, and that they cover 72 hours.
use kyvernetria.Gestation.Care.{hour, newborn_care_duration, care_tier, last_tier_class}
use kyvernetria.Prelude.Int.{ℤ, pos, ◌<ℤ◌, ◌≤ℤ◌}
use kyvernetria.Prelude.{◌*◌, ◌≤◌, ◌≡◌, ◌↔◌, arith}

-- The tier is 1, 2, 3 or 0: 1 exactly in the first 24 hours, 3 exactly in the last 24 of the 72, and 0
-- exactly once the 72 hours are over.
pub care_tier_lem :
    (since : ℤ)
    → ((care_tier since).0 ≤ 3)
      × (((care_tier since).0 ≡ 0) ↔ (pos newborn_care_duration ≤ℤ since))
      × (((care_tier since).0 ≡ 1) ↔ (since <ℤ pos (24 * hour)))
      × (((care_tier since).0 ≡ 3)
          ↔ ((pos (48 * hour) ≤ℤ since) × (since <ℤ pos newborn_care_duration)))
unfolding care_tier
care_tier_lem since = (
  ground arith,
  (λ h. ground arith, λ h. ground arith),
  (λ h. ground arith, λ h. ground arith),
  (λ h. ground arith, λ h. ground arith),
)

-- While a service is in care, an older one is never in an earlier tier.
pub care_tier_mono :
    (since later : ℤ)
    → since ≤ℤ later
    → later <ℤ pos newborn_care_duration
    → (care_tier since).0 ≤ (care_tier later).0
unfolding care_tier
care_tier_mono since later h k = ground arith

-- The step that is held for a service without caregivers is the one of the last hour of care.
pub last_tier_class-held :
    (since : ℤ)
    → pos (48 * hour) ≤ℤ since
    → since <ℤ pos newborn_care_duration
    → care_tier since ≡ last_tier_class
unfolding care_tier last_tier_class
last_tier_class-held since h k = ground arith
