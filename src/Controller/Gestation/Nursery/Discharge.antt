-- ===== src/Controller/Gestation/Nursery/Discharge.antt =====
-- When newborn care ends, and what the end of it gives back.
use kyvernetria.Controller.Gestation.State.{
  grown, Spec, Birth, Care, Status, Deployment, Cluster, replicas_of,
}
use kyvernetria.Controller.Gestation.Nursery.{CareApi, care_for, tend, noted, discharge}
use kyvernetria.Controller.Gestation.Birth.{
  birth_replicas, born_deployment, birth_at, end_care, wanted, delete_pdb,
}
use kyvernetria.Gestation.Care.{caregivers_of, care_tier, newborn_care_duration}
use kyvernetria.Gestation.Care.Tiers.{care_tier_lem}
use kyvernetria.Gestation.Pregnancy.{sub_time}
use kyvernetria.Prelude.Int.{ℤ, pos, ltb_ℤ, ◌≤ℤ◌, ◌-ℤ◌, wrap32, wrap32_fits, +ℤ_nonneg, -ℤ_nonneg}
use kyvernetria.Prelude.{
  ℕ, ◌+◌, ◌-◌, ◌<◌, ◌≡◌, refl, ap, ◌∙◌, Bool, true, false, not, ◌&&◌, String, some, arith, ltb,
  if◌then◌else◌, Bool-cases, inl, inr,
}

tend-grown :
    (api : CareApi) (now : ℤ) (b : Birth) (care : Care) (ok : Bool) (tier : ℕ × String) (g : Status)
    (d : Deployment) (k : Cluster)
    → (tend api now b care ok tier g d k).status.phase ≡ grown
    → (ok ≡ true) × (tier.0 ≡ 0)
unfolding tend
tend-grown api now b care true (tier, class) g d k home = ground arith
tend-grown api now b care false (tier, class) g d k home = ground arith

-- A look at a newborn ends with a grown service only where both caregivers are accepted and 72 hours have
-- passed since the birth.
pub care_for-grown :
    (api : CareApi) (now : ℤ) (b : Birth) (care : Care) (g : Status) (d : Deployment) (k : Cluster)
    → (care_for api now b care g d k).status.phase ≡ grown
    → ((caregivers_of api.wide d.annotations).1.0 ≡ true)
      × (pos newborn_care_duration ≤ℤ sub_time now b.time)
unfolding care_for
care_for-grown api now b care g d k home =
    let (accepted, over) =
      tend-grown api now b care _ (care_tier (sub_time now b.time))
        (record g { caregivers = noted (caregivers_of api.wide d.annotations).0 }) d k home in
    (accepted, (care_tier_lem (sub_time now b.time)).1.0 over)

-- How many replicas of m the end of newborn care leaves.
abbrev ended : Bool → ℕ → ℕ
ended added m = if added && ltb_ℤ (pos 1) (pos m) then m - 1 else m

end_care-ended :
    (b : Birth) (d : Deployment) (m : ℕ)
    → replicas_of d.replicas ≡ pos m
    → m < 2147483648
    → replicas_of (end_care b d).replicas ≡ pos (ended b.added_replica m)
unfolding end_care
end_care-ended b d m e fits = elim (Bool-cases (b.added_replica && ltb_ℤ (pos 1) (pos m))) [
  | inl taken ↦
      let less : wrap32 (pos m -ℤ pos 1) ≡ pos (m - 1) =
        ap wrap32 (-ℤ_nonneg m 1 (ground (arith, taken)))
        ∙ wrap32_fits (m - 1) (omega (arith, fits)) in
      rw (e, taken) less
  | inr kept ↦ rw (e, kept) e
]

born_replicas :
    (s : Spec) (d : Deployment) (now : ℤ) (auto : Bool) (n : ℕ)
    → wanted s d ≡ pos n
    → n + 1 < 2147483648
    → replicas_of (born_deployment now d (birth_replicas s d auto)).replicas
      ≡ pos (if auto then n else n + 1)
unfolding birth_replicas
born_replicas s d now true n e r = e
born_replicas s d now false n e r = simp e (ap wrap32 (+ℤ_nonneg n 1) ∙ wrap32_fits (n + 1) r)

-- What a Deployment runs once newborn care has ended for it once, and once it has ended twice.
abbrev pub end_twice : Bool → ℕ → ℕ
end_twice auto n = if auto then n else (if ltb 1 n then n - 1 else n)

ended_once : (auto : Bool) (n : ℕ) → 0 < n → ended (not auto) (if auto then n else n + 1) ≡ n
ended_once true n h = refl
ended_once false n h = ground (arith, h)

ended_twice : (auto : Bool) (n : ℕ) → ended (not auto) n ≡ end_twice auto n
ended_twice true n = refl
ended_twice false n = ground arith

module _ (api : CareApi) (now : ℤ) (b : Birth) (care : Care) (g : Status) (d : Deployment)
    (k : Cluster) (born_at : g.birth ≡ some b) (updated : api.discharged ≡ true) where
  discharge-deployment : (discharge api now b care g d k).cluster.deployment ≡ some (end_care b d)
  unfolding discharge delete_pdb
  discharge-deployment =
      rw (updated, born_at)
        (elim (Bool-cases b.has_pdb) [
          | inr none_left ↦ rw none_left refl
          | inl left ↦ rw left (elim (Bool-cases api.pdb_deleted) [
            | inl deleted ↦ rw deleted refl
            | inr stuck ↦ rw stuck refl
          ])
        ])

  discharge-grown :
      (b.has_pdb && not api.pdb_deleted) ≡ false
      → ((discharge api now b care g d k).status.phase ≡ grown)
        × ((discharge api now b care g d k).failed ≡ false)
  unfolding discharge delete_pdb
  discharge-grown clear =
      rw (updated, born_at)
        (elim (Bool-cases b.has_pdb) [
          | inr none_left ↦ rw none_left (refl, refl)
          | inl left ↦ rw left (elim (Bool-cases api.pdb_deleted) [
            | inl deleted ↦ rw deleted (refl, refl)
            | inr stuck ↦ absurd (ground (arith, clear, left, stuck))
          ])
        ])

  discharge-stuck :
      (b.has_pdb && not api.pdb_deleted) ≡ true
      → ((discharge api now b care g d k).status ≡ g)
        × ((discharge api now b care g d k).failed ≡ true)
  unfolding discharge delete_pdb
  discharge-stuck stuck =
      rw (updated, born_at)
        (elim (Bool-cases b.has_pdb) [
          | inr none_left ↦ absurd (ground (arith, stuck, none_left))
          | inl left ↦ rw left (elim (Bool-cases api.pdb_deleted) [
            | inl deleted ↦ absurd (ground (arith, stuck, deleted))
            | inr kept ↦ rw kept (refl, refl)
          ])
        ])

-- For 1 to 2 ^ 31 - 2 wanted replicas, the discharge of a service that was born with the replica that newborn
-- care adds, or without: if the update of the Deployment fails, nothing changes. If it is done and the budget,
-- if there is one, is deleted, the service is grown, runs what it wanted and has no newborn label. If the
-- budget cannot be deleted, the status stays as it was, so that the next pass discharges again. If that one can
-- update the Deployment, which runs what it wanted already, it takes one replica more off a service that was
-- born with the extra one, unless only one is left.
pub discharge-replicas :
    (api again : CareApi) (s : Spec) (d : Deployment) (t now later : ℤ) (auto pdb : Bool) (n : ℕ)
    (care : Care) (g : Status) (k : Cluster)
    → wanted s d ≡ pos n
    → 0 < n
    → n + 1 < 2147483648
    → g.birth ≡ some (birth_at t d (not auto) pdb)
    → again.discharged ≡ true
    → let b = birth_at t d (not auto) pdb in
      let born = born_deployment t d (birth_replicas s d auto) in
      let once = end_care b born in
      let pass = discharge api now b care g born k in
      let next = discharge again later b care g once pass.cluster in
      (api.discharged ≡ false → (pass.cluster ≡ k) × (pass.status ≡ g) × (pass.failed ≡ true))
      × (api.discharged ≡ true
          → (pass.cluster.deployment ≡ some once)
            × (replicas_of once.replicas ≡ pos n)
            × (once.newborn_label ≡ false)
            × ((pdb && not api.pdb_deleted) ≡ false
                → (pass.status.phase ≡ grown) × (pass.failed ≡ false))
            × ((pdb && not api.pdb_deleted) ≡ true
                → (pass.status ≡ g)
                  × (pass.failed ≡ true)
                  × (next.cluster.deployment ≡ some (end_care b once))
                  × (replicas_of (end_care b once).replicas ≡ pos (end_twice auto n))))
unfolding discharge end_care
discharge-replicas api again s d t now later auto pdb n care g k e h r born_at works =
    let b = birth_at t d (not auto) pdb in
    let born = born_deployment t d (birth_replicas s d auto) in
    let first =
      end_care-ended b (born_deployment t d (birth_replicas s d auto)) (if auto then n else n + 1)
        (born_replicas s d t auto n e r) (born_fits auto)
      ∙ ap pos (ended_once auto n h) in
    let second =
      end_care-ended b (end_care b (born_deployment t d (birth_replicas s d auto))) n first
        (omega (arith, r))
      ∙ ap pos (ended_twice auto n) in
    (
      λ no. rw no (refl, refl, refl),
      λ done. (
        discharge-deployment api now b care g born k born_at done,
        first,
        refl,
        λ clear. discharge-grown api now b care g born k born_at done clear,
        λ stuck.
            (let (same, failed) = discharge-stuck api now b care g born k born_at done stuck in
              (
                same,
                failed,
                discharge-deployment again later b care g (end_care b born)
                    (discharge api now b care g born k).cluster born_at works,
                second,
              )),
      ),
    )
  where
    born_fits : (auto : Bool) → (if auto then n else n + 1) < 2147483648
    born_fits true = omega (arith, r)
    born_fits false = r
