-- ===== src/Controller/Gestation/Signs/Examples.antt =====
-- The signs of a birth with two pods behind a Service, one event of the controller and one of the kubelet.
use kyvernetria.Controller.Gestation.Signs.{
  Pod, Container, Event, Newborn, Service, signs, all_pod_signs, page_signs, service_signs,
  container_signs, counted, pod_ready, event_signs, is_skipped, is_about, event_time_of, contains,
  all_served,
}
use kyvernetria.Controller.Gestation.Signs.Events.{others, all_events, signs-others}
use kyvernetria.Text.{codes}
use kyvernetria.Text.Pieces.{after_text}
use kyvernetria.Text.Split.{has_prefix}
use kyvernetria.Prelude.Int.{pos, ◌+ℤ◌}
use kyvernetria.Prelude.{◌≡◌, refl, true, false, List, [], ◌∷◌, map, String, none, some}

abbrev shop : Newborn
shop = record { replica_set = "shop-7f"; uid = "r1"; deployment = "shop"; born = pos 100 }

abbrev steady : Container
steady = record {
  restart_count = pos 0;
  running = true;
  waiting = none;
  terminated = none;
  last_terminated = none;
}

abbrev greedy : Container
greedy = record {
  restart_count = pos 3;
  running = false;
  waiting = some "CrashLoopBackOff";
  terminated = none;
  last_terminated = some "OOMKilled";
}

abbrev pod_of : String → List Container → Pod
pod_of name cs = record {
  name = name;
  controller = some "r1";
  phase = "Running";
  reason = "";
  conditions = ("Ready", "True") ∷ [];
  containers = cs;
}

abbrev shop_pods : List Pod
shop_pods =
    pod_of "shop-7f-a" (steady ∷ [])
    ∷ pod_of "shop-7f-b" (greedy ∷ [])
    ∷ record (pod_of "other" []) { controller = some "r2" }
    ∷ []

abbrev warning : String → String → String → Event
warning source reason message = record {
  kind = "Deployment";
  object = "shop";
  type_text = "Warning";
  component = source;
  reporting = "";
  count = pos 0;
  reason = reason;
  message = codes message;
  last_time = some (pos 120);
  event_time = none;
  first_time = pos 90;
}

abbrev pages : List (List Event)
pages =
    (warning "kyvernetria-gestation" "ApgarLow" "score 3" ∷ [])
    ∷ (warning "kubelet" "Unhealthy" "Liveness probe failed"
        ∷ warning "kubelet" "FailedMount" ""
        ∷ [])
    ∷ []

abbrev front : List Service
front =
    record {
      selects = true;
      endpoints = some (record { target = some ("Pod", "shop-7f-a"); ready = none } ∷ []);
    }
    ∷ []

-- The event of the controller is not among the warnings.
signs_test :
    signs (pos 2) (some (some shop)) (some shop_pods) (map some pages) (some front)
    ≡ some (record {
      desired = pos 2;
      ready = pos 2;
      running = pos 1;
      restarts = pos 3;
      crash_looping = true;
      liveness_failures = pos 1;
      warnings = pos 1;
      services = pos 1;
      ready_endpoint = pos 1;
      oom_kills = pos 1;
      evictions = pos 0;
    })
unfolding signs all_pod_signs page_signs service_signs container_signs counted pod_ready event_signs
    is_skipped is_about event_time_of contains all_served after_text has_prefix ◌+ℤ◌
signs_test = refl

signs-others_example :
    signs (pos 2) (some (some shop)) (some shop_pods) (map some pages) (some front)
    ≡ signs
        (pos 2)
        (some (some shop))
        (some shop_pods)
        (some (others (all_events pages)) ∷ [])
        (some front)
signs-others_example = signs-others (pos 2) (some (some shop)) (some shop_pods) pages (some front)
