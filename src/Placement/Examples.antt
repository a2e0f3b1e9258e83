-- ===== src/Placement/Examples.antt =====
-- The theorems on place memory at a concrete workload.
use kyvernetria.Placement.{
  Holder, Owner, Pod, ReplicaSets, Running, holder_key, parse_holder, deployment, recall, decode,
  scores, holder_for, apps_owner,
}
use kyvernetria.Placement.Pods.{
  Placed, Cache, running, running_pods, enqueue_pod, collect, add_if_held, add_pod, counted_as,
  holder_eq,
}
use kyvernetria.Placement.Sync.{Live, Around, unchanged, attempts}
use kyvernetria.Placement.Atomic.{Atomic, attempts-Atomic}
use kyvernetria.Placement.Settled.{recalling, attempts-settled}
use kyvernetria.Placement.Steady.{enqueue_pod-recalled}
use kyvernetria.Placement.Schedule.{Other, NodeInfo, homes, same_holder}
use kyvernetria.Placement.Siblings.{nodes_with_sibling, homes-uncached}
use kyvernetria.Placement.Keys.{parse_holder-holder_key}
use kyvernetria.Text.{Text, codes}
use kyvernetria.Text.Split.{split, split_from}
use kyvernetria.Prelude.Int.{negsuc}
use kyvernetria.Prelude.{
  ℕ, zero, suc, ◌≡◌, refl, true, false, none, some, List, [], ◌∷◌, arith, String,
}

abbrev web : Holder
web = record { kind = deployment; scope = codes "shop"; name = codes "web" }

abbrev on_b : Running
on_b = (codes "b", negsuc 0 ∷ []) ∷ []

-- Version 0 remembers node a; another writer stores version 1.
abbrev written : ℕ → Text
written zero = codes "a"
written (suc n) = codes "c,a"

abbrev first_copy : Live
first_copy = record { version = 0; annotation = codes "a" }

abbrev overtaken : ℕ → Around
overtaken n = record {
  before_patch = λ s. some (record { version = 1; annotation = codes "c,a" });
  patch_fails = false;
  before_get = λ s. s;
  get_fails = false;
}

abbrev alone : ℕ → Around
alone n = record {
  before_patch = λ s. s;
  patch_fails = false;
  before_get = λ s. s;
  get_fails = false;
}

attempts-Atomic_example :
    Atomic
      (recalling web on_b)
      overtaken
      (some first_copy)
      (attempts (recalling web on_b) 5 overtaken first_copy (some first_copy))
attempts-Atomic_example =
    attempts-Atomic written (recalling web on_b) overtaken (λ k s h. refl) (λ k s h. h) 5 first_copy
      (some first_copy) refl refl

attempts-settled_example :
    (p : Live) × ((attempts (recalling web on_b) 5 alone first_copy (some first_copy)).0 ≡ some p)
    × (p.annotation ≡ recall deployment (codes "a") on_b)
    × (attempts (recalling web on_b) 5 overtaken p (some p) ≡ (some p, unchanged))
unfolding decode split_from split
attempts-settled_example =
    attempts-settled web on_b 4 4 alone overtaken first_copy refl
      ((λ e. cc, (ground arith, tt)), tt) ((λ e. cc, (ground arith, tt)), tt) (refl, λ s. refl)

-- The ReplicaSet web-1 belongs to the Deployment web.
abbrev owner_of : Text → Text → Owner
owner_of kind name = record { group = some (codes "apps"); kind = kind; name = name }

abbrev sets : ReplicaSets
sets scope name = some (some (owner_of deployment (codes "web")))

abbrev pod_of : String → Pod
pod_of name = record {
  scope = codes "shop";
  name = codes name;
  owner = some (owner_of (codes "ReplicaSet") (codes "web-1"));
  pod_index = none;
}

abbrev placed : Placed
placed = record {
  pod = pod_of "web-1-x";
  node = codes "b";
  in_phase_running = true;
  deleting = false;
}

abbrev remembering : Cache
remembering h = some (recall deployment (codes "a") on_b)

enqueue_pod-recalled_example : enqueue_pod sets remembering placed ≡ none
unfolding decode split_from split running_pods collect add_if_held add_pod counted_as holder_eq
    holder_for apps_owner running
enqueue_pod-recalled_example =
    enqueue_pod-recalled sets remembering web (codes "a") placed [] [] refl
      ((λ e. cc, (ground arith, tt)), tt) ((λ e. cc, (ground arith, tt)), tt) refl refl refl refl

abbrev other_of : String → Other
other_of name = record {
  pod = pod_of name;
  uid = codes name;
  deleting = false;
  owner_uid = some (codes "u1");
}

abbrev node_of : String → List Other → NodeInfo
node_of name pods = record { node = some (codes name); pods = pods }

abbrev cluster : List NodeInfo
cluster = node_of "a" (other_of "x" ∷ []) ∷ node_of "b" (other_of "y" ∷ []) ∷ node_of "c" [] ∷ []

homes-uncached_example :
    homes sets (pod_of "z") (codes "z") web (codes "a" ∷ codes "b" ∷ codes "c" ∷ []) cluster
    ≡ scores (codes "a" ∷ codes "b" ∷ codes "c" ∷ []) (
        nodes_with_sibling sets web
          (pod_of "z")
          (codes "z")
          (codes "a" ∷ codes "b" ∷ codes "c" ∷ [])
          cluster)
unfolding same_holder holder_for apps_owner holder_eq
homes-uncached_example =
    homes-uncached sets web (λ u. true) (pod_of "z") (codes "z") (codes "a")
      (codes "b" ∷ codes "c" ∷ []) cluster ((λ u e. refl, tt), ((λ u e. refl, tt), (tt, tt)))

parse_holder-holder_key_example : parse_holder (holder_key web) ≡ some web
parse_holder-holder_key_example =
    parse_holder-holder_key web (ground arith) (ground arith) (ground arith)
