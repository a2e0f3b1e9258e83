-- ===== src/Admission/Antigens.antt =====
-- admission/immunity/admission.go: what the immune system does not accept in a pod.
pub mod Images
use kyvernetria.Admission.NoBruteForce.{
  Operation, create, update, Verdict, allowed, forbidden, internal_error,
}
use native.Mathlib.Decide.{ℕ_discrete}
use kyvernetria.Text.{Text, codes, text_eq}
use kyvernetria.Text.Split.{has_prefix}
use kyvernetria.Prelude.Int.{ℤ, pos, eqb_ℤ}
use kyvernetria.Text.Pieces.{after_last}
use kyvernetria.Text.Case.{to_upper}
use kyvernetria.Prelude.{
  ℕ, ◌-◌, Bool, true, false, not, ◌&&◌, ◌||◌, List, [], ◌∷◌, ◌++◌, String, Option, none, some,
  if◌then◌else◌, any, keep, drop, leb, ltb, ◌==◌, str_eq,
}

pub data Kind : Type 0 where
  init regular ephemeral : Kind

-- What the immune system finds, one constructor for each message.
pub data Antigen : Type 0 where
  host_network host_pid host_ipc : Antigen
  host_path : Text → Antigen
  pod_seccomp pod_app_armor pod_host_process : Antigen
  host_port : Kind → Text → ℤ → Antigen
  app_armor_annotation : Kind → Text → Antigen
  unpinned : Kind → Text → Text → Antigen
  privileged escalates : Kind → Text → Antigen
  capability : Kind → Text → Text → Antigen
  proc_mount seccomp app_armor host_process : Kind → Text → Antigen

pub data Profile : Type 0 where
  unconfined runtime_default localhost : Profile

-- Fields that are pointers are options, `none` for nil.
pub record SecurityContext : Type 0 where
  pub privileged : Option Bool
  pub allow_escalation : Option Bool
  pub add_capabilities : Option (List Text)
  pub unmasked : Option Bool
  pub seccomp : Option Profile
  pub app_armor : Option Profile
  pub host_process : Option Bool

pub record Container : Type 0 where
  pub name : Text
  pub image : Text
  pub host_ports : List ℤ
  pub context : Option SecurityContext

pub record Volume : Type 0 where
  pub name : Text
  pub host_path : Bool

pub record PodContext : Type 0 where
  pub seccomp : Option Profile
  pub app_armor : Option Profile
  pub host_process : Option Bool

-- `app_armor_of` is the AppArmor annotation for a container's name, "" where there is none.
pub record Pod : Type 0 where
  pub host_network : Bool
  pub host_pid : Bool
  pub host_ipc : Bool
  pub volumes : List Volume
  pub context : Option PodContext
  pub init_containers : List Container
  pub containers : List Container
  pub ephemeral_containers : List Container
  pub app_armor_of : Text → Text

abbrev pub or_all : Text → Option Text → Text
or_all s none = s
or_all s (some rest) = rest

abbrev pub is_latest : Option Text → Bool
is_latest none = true
is_latest (some tag) = text_eq tag (codes "latest")

-- FloatingTag: 64 is @, 47 is / and 58 is :.
unfoldable pub floating_tag : Text → Bool
unfolding after_last
floating_tag image =
    if any (◌==◌ 64) image
    then false
    else is_latest (after_last 58 (or_all image (after_last 47 image)))

abbrev pub set_true : Option Bool → Bool
set_true none = false
set_true (some b) = b

abbrev pub is_unconfined : Option Profile → Bool
is_unconfined (some unconfined) = true
is_unconfined _ = false

abbrev pub found_if : Bool → Antigen → List Antigen
found_if true a = a ∷ []
found_if false a = []

-- The capability without its prefix CAP_.
unfoldable pub normal_capability : (ℕ → ℕ) → Text → Text
unfolding to_upper has_prefix
normal_capability wide c =
    let up = to_upper wide c in if has_prefix up (codes "CAP_") then drop 4 up else up

unfoldable pub baseline_capabilities : List Text
baseline_capabilities =
    codes "AUDIT_WRITE"
    ∷ codes "CHOWN"
    ∷ codes "DAC_OVERRIDE"
    ∷ codes "FOWNER"
    ∷ codes "FSETID"
    ∷ codes "KILL"
    ∷ codes "MKNOD"
    ∷ codes "NET_BIND_SERVICE"
    ∷ codes "SETFCAP"
    ∷ codes "SETGID"
    ∷ codes "SETPCAP"
    ∷ codes "SETUID"
    ∷ codes "SYS_CHROOT"
    ∷ []

unfoldable pub capabilities_of : (ℕ → ℕ) → Kind → Text → List Text → List Antigen
unfolding normal_capability baseline_capabilities
capabilities_of wide kind name [] = []
capabilities_of wide kind name (c ∷ cs) =
    found_if (not (any (text_eq (normal_capability wide c)) baseline_capabilities))
      (capability kind name (normal_capability wide c))
    ++ capabilities_of wide kind name cs

abbrev pub added : Option (List Text) → List Text
added none = []
added (some cs) = cs

unfoldable pub ports_of : Kind → Text → List ℤ → List Antigen
ports_of kind name [] = []
ports_of kind name (p ∷ ps) =
    found_if (not (eqb_ℤ p (pos 0))) (host_port kind name p) ++ ports_of kind name ps

unfoldable pub context_of : (ℕ → ℕ) → Kind → Text → Option SecurityContext → List Antigen
unfolding capabilities_of
context_of wide kind name none = []
context_of wide kind name (some sc) =
    found_if (set_true sc.privileged) (privileged kind name)
    ++ (found_if (set_true sc.allow_escalation) (escalates kind name)
        ++ (capabilities_of wide kind name (added sc.add_capabilities)
            ++ (found_if (set_true sc.unmasked) (proc_mount kind name)
                ++ (found_if (is_unconfined sc.seccomp) (seccomp kind name)
                    ++ (found_if (is_unconfined sc.app_armor) (app_armor kind name)
                        ++ found_if (set_true sc.host_process) (host_process kind name))))))

-- `visit`.
unfoldable pub container_of : (ℕ → ℕ) → Pod → Kind → Container → List Antigen
unfolding ports_of context_of floating_tag
container_of wide pod kind c =
    ports_of kind c.name c.host_ports
    ++ (found_if (text_eq (pod.app_armor_of c.name) (codes "unconfined"))
          (app_armor_annotation kind c.name)
        ++ (found_if (floating_tag c.image) (unpinned kind c.name c.image)
            ++ context_of wide kind c.name c.context))

unfoldable pub containers_of : (ℕ → ℕ) → Pod → Kind → List Container → List Antigen
unfolding container_of
containers_of wide pod kind [] = []
containers_of wide pod kind (c ∷ cs) =
    container_of wide pod kind c ++ containers_of wide pod kind cs

unfoldable pub volumes_of : List Volume → List Antigen
volumes_of [] = []
volumes_of (v ∷ vs) = found_if v.host_path (host_path v.name) ++ volumes_of vs

abbrev pub pod_context_of : Option PodContext → List Antigen
pod_context_of none = []
pod_context_of (some psc) =
    found_if (is_unconfined psc.seccomp) pod_seccomp
    ++ (found_if (is_unconfined psc.app_armor) pod_app_armor
        ++ found_if (set_true psc.host_process) pod_host_process)

unfoldable pub antigens : (ℕ → ℕ) → Pod → List Antigen
unfolding volumes_of containers_of
antigens wide pod =
    found_if pod.host_network host_network
    ++ (found_if pod.host_pid host_pid
        ++ (found_if pod.host_ipc host_ipc
            ++ (volumes_of pod.volumes
                ++ (pod_context_of pod.context
                    ++ (containers_of wide pod init pod.init_containers
                        ++ (containers_of wide pod regular pod.containers
                            ++ containers_of wide pod ephemeral pod.ephemeral_containers))))))
