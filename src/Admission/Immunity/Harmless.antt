-- ===== src/Admission/Immunity/Harmless.antt =====
-- admission/immunity/admission.go: what a pod without antigens is, field by field.
use kyvernetria.Admission.Antigens.{
  Antigen, Kind, init, regular, ephemeral, Profile, unconfined, runtime_default, localhost,
  SecurityContext, Container, Volume, PodContext, Pod, floating_tag, set_true, is_unconfined,
  found_if, normal_capability, capabilities_of, added, ports_of, context_of, container_of,
  containers_of, volumes_of, pod_context_of, antigens,
}
use kyvernetria.Text.{Text, codes, text_eq, text_eq_iff}
use kyvernetria.Prelude.Int.{ℤ, pos, eqb_ℤ}
use kyvernetria.Prelude.{
  ℕ, ◌≡◌, ◌≢◌, ◌↔◌, inl, inr, refl, Bool, true, false, not, List, [], ◌∷◌, ◌++◌, Option, none, some,
  arith, any, All, Bool-cases,
}

-- The baseline of the Pod Security Standards.
abbrev baseline : List Text
baseline =
    codes "AUDIT_WRITE"
    ∷ codes "CHOWN"
    ∷ codes "DAC_OVERRIDE"
    ∷ codes "FOWNER"
    ∷ codes "FSETID"
    ∷ codes "KILL"
    ∷ codes "MKNOD"
    ∷ codes "NET_BIND_SERVICE"
    ∷ codes "SETFCAP"
    ∷ codes "SETGID"
    ∷ codes "SETPCAP"
    ∷ codes "SETUID"
    ∷ codes "SYS_CHROOT"
    ∷ []

pub through : {P Q R : Type 0} → P ↔ Q → Q ↔ R → P ↔ R
through f g = (λ p. g.0 (f.0 p), λ r. f.1 (g.1 r))

module _ (wide : ℕ → ℕ) where
  abbrev pub IsBaseline : Text → Type 0
  IsBaseline c = any (text_eq (normal_capability wide c)) baseline ≡ true

  abbrev pub ContextHarmless : Option SecurityContext → Type 0
  ContextHarmless none = Unit
  ContextHarmless (some sc) =
      (sc.privileged ≢ some true)
      × ((sc.allow_escalation ≢ some true)
          × (All IsBaseline (added sc.add_capabilities)
              × ((sc.unmasked ≢ some true)
                  × ((sc.seccomp ≢ some unconfined)
                      × ((sc.app_armor ≢ some unconfined) × (sc.host_process ≢ some true))))))

  abbrev pub ContainerHarmless : Pod → Container → Type 0
  ContainerHarmless pod c =
      All (λ p. p ≡ pos 0) c.host_ports
      × ((pod.app_armor_of c.name ≢ codes "unconfined")
          × ((floating_tag c.image ≡ false) × ContextHarmless c.context))

  abbrev pub PodContextHarmless : Option PodContext → Type 0
  PodContextHarmless none = Unit
  PodContextHarmless (some psc) =
      (psc.seccomp ≢ some unconfined)
      × ((psc.app_armor ≢ some unconfined) × (psc.host_process ≢ some true))

  -- A pod that shares nothing with its node, mounts nothing of it and asks for no power over it.
  abbrev pub Harmless : Pod → Type 0
  Harmless pod =
      (pod.host_network ≡ false)
      × ((pod.host_pid ≡ false)
          × ((pod.host_ipc ≡ false)
              × (All (λ (v : Volume). v.host_path ≡ false) pod.volumes
                  × (PodContextHarmless pod.context
                      × (All (ContainerHarmless pod) pod.init_containers
                          × (All (ContainerHarmless pod) pod.containers
                              × All (ContainerHarmless pod) pod.ephemeral_containers))))))

  append_iff :
      {P Q : Type 0} (xs ys : List Antigen)
      → (xs ≡ []) ↔ P
      → (ys ≡ []) ↔ Q
      → (xs ++ ys ≡ []) ↔ (P × Q)
  append_iff [] ys p q = (λ h. (p.0 refl, q.0 h), λ pq. q.1 pq.1)
  append_iff (x ∷ xs) ys p q = (λ h. absurd (cc h), λ pq. absurd (cc (p.1 pq.0)))

  found_if_iff : (b : Bool) (a : Antigen) → (found_if b a ≡ []) ↔ (b ≡ false)
  found_if_iff true a = (λ h. absurd (cc h), λ h. absurd (cc h))
  found_if_iff false a = (λ h. refl, λ h. refl)

  set_true_iff : (o : Option Bool) → (set_true o ≡ false) ↔ (o ≢ some true)
  set_true_iff none = (λ h e. cc e, λ h. refl)
  set_true_iff (some true) = (λ h. absurd (cc h), λ h. absurd (h refl))
  set_true_iff (some false) = (λ h e. cc e, λ h. refl)

  is_unconfined_iff : (o : Option Profile) → (is_unconfined o ≡ false) ↔ (o ≢ some unconfined)
  is_unconfined_iff none = (λ h e. cc e, λ h. refl)
  is_unconfined_iff (some unconfined) = (λ h. absurd (cc h), λ h. absurd (h refl))
  is_unconfined_iff (some runtime_default) = (λ h e. cc e, λ h. refl)
  is_unconfined_iff (some localhost) = (λ h e. cc e, λ h. refl)

  set_found : (o : Option Bool) (a : Antigen) → (found_if (set_true o) a ≡ []) ↔ (o ≢ some true)
  set_found o a = through (found_if_iff (set_true o) a) (set_true_iff o)

  profile_found :
      (o : Option Profile) (a : Antigen)
      → (found_if (is_unconfined o) a ≡ []) ↔ (o ≢ some unconfined)
  profile_found o a = through (found_if_iff (is_unconfined o) a) (is_unconfined_iff o)

  not-false_iff : (b : Bool) → (not b ≡ false) ↔ (b ≡ true)
  not-false_iff true = (λ h. refl, λ h. refl)
  not-false_iff false = (λ h. absurd (cc h), λ h. absurd (cc h))

  capabilities_of_iff :
      (kind : Kind) (name : Text) (cs : List Text)
      → (capabilities_of wide kind name cs ≡ []) ↔ All IsBaseline cs
  unfolding capabilities_of
  capabilities_of_iff kind name [] = (λ h. tt, λ h. refl)
  capabilities_of_iff kind name (c ∷ cs) =
      append_iff _ (capabilities_of wide kind name cs)
        (through (found_if_iff _ _)
          (not-false_iff (any (text_eq (normal_capability wide c)) baseline)))
        (capabilities_of_iff kind name cs)

  context_of_iff :
      (kind : Kind) (name : Text) (o : Option SecurityContext)
      → (context_of wide kind name o ≡ []) ↔ ContextHarmless o
  unfolding context_of
  context_of_iff kind name none = (λ h. tt, λ h. refl)
  context_of_iff kind name (some sc) = append_iff _ _ (set_found sc.privileged _) (
      append_iff _ _ (set_found sc.allow_escalation _) (
        append_iff _ _ (capabilities_of_iff kind name (added sc.add_capabilities)) (
          append_iff _ _ (set_found sc.unmasked _) (
            append_iff _ _ (profile_found sc.seccomp _)
              (append_iff _ _ (profile_found sc.app_armor _) (set_found sc.host_process _))))))

  eqb_zero_iff : (p : ℤ) → (not (eqb_ℤ p (pos 0)) ≡ false) ↔ (p ≡ pos 0)
  eqb_zero_iff p = (λ h. ground (arith, h), λ h. ground (arith, h))

  ports_of_iff :
      (kind : Kind) (name : Text) (ps : List ℤ)
      → (ports_of kind name ps ≡ []) ↔ All (λ p. p ≡ pos 0) ps
  unfolding ports_of
  ports_of_iff kind name [] = (λ h. tt, λ h. refl)
  ports_of_iff kind name (p ∷ ps) =
      append_iff _ (ports_of kind name ps) (through (found_if_iff _ _) (eqb_zero_iff p))
        (ports_of_iff kind name ps)

  text_eq-false_iff : (s t : Text) → (text_eq s t ≡ false) ↔ (s ≢ t)
  text_eq-false_iff s t = (
    λ h e. absurd (cc (h, (text_eq_iff s t).1 e)),
    λ n. elim (Bool-cases (text_eq s t)) [
      | inl same ↦ absurd (n ((text_eq_iff s t).0 same))
      | inr other ↦ other
    ],
  )

  container_of_iff :
      (pod : Pod) (kind : Kind) (c : Container)
      → (container_of wide pod kind c ≡ []) ↔ ContainerHarmless pod c
  unfolding container_of
  container_of_iff pod kind c = append_iff _ _ (ports_of_iff kind c.name c.host_ports) (
      append_iff _ _
        (through (found_if_iff _ _)
          (text_eq-false_iff (pod.app_armor_of c.name) (codes "unconfined")))
        (append_iff _ _ (found_if_iff (floating_tag c.image) _)
          (context_of_iff kind c.name c.context)))

  containers_of_iff :
      (pod : Pod) (kind : Kind) (cs : List Container)
      → (containers_of wide pod kind cs ≡ []) ↔ All (ContainerHarmless pod) cs
  unfolding containers_of
  containers_of_iff pod kind [] = (λ h. tt, λ h. refl)
  containers_of_iff pod kind (c ∷ cs) =
      append_iff _ (containers_of wide pod kind cs) (container_of_iff pod kind c)
        (containers_of_iff pod kind cs)

  volumes_of_iff :
      (vs : List Volume) → (volumes_of vs ≡ []) ↔ All (λ (v : Volume). v.host_path ≡ false) vs
  unfolding volumes_of
  volumes_of_iff [] = (λ h. tt, λ h. refl)
  volumes_of_iff (v ∷ vs) =
      append_iff _ (volumes_of vs) (found_if_iff v.host_path _) (volumes_of_iff vs)

  pod_context_of_iff : (o : Option PodContext) → (pod_context_of o ≡ []) ↔ PodContextHarmless o
  pod_context_of_iff none = (λ h. tt, λ h. refl)
  pod_context_of_iff (some psc) =
      append_iff _ _ (profile_found psc.seccomp _)
        (append_iff _ _ (profile_found psc.app_armor _) (set_found psc.host_process _))

  pub antigens_iff : (pod : Pod) → (antigens wide pod ≡ []) ↔ Harmless pod
  unfolding antigens
  antigens_iff pod = append_iff _ _ (found_if_iff pod.host_network _) (
      append_iff _ _ (found_if_iff pod.host_pid _) (
        append_iff _ _ (found_if_iff pod.host_ipc _) (
          append_iff _ _ (volumes_of_iff pod.volumes) (
            append_iff _ _ (pod_context_of_iff pod.context) (
              append_iff _ _ (containers_of_iff pod init pod.init_containers) (
                append_iff _ _ (containers_of_iff pod regular pod.containers)
                  (containers_of_iff pod ephemeral pod.ephemeral_containers)))))))
