-- ===== src/Controller/Gestation/Reserve.antt =====
-- controller/gestation/pregnancy.go: reserving room before the due date, and giving it back.
use kyvernetria.Controller.Gestation.State.{
  Phase, expecting, due, Spec, Status, Placenta, Cluster, Pass, succeeds, replicas_of,
}
use kyvernetria.Gestation.Pregnancy.{trimester, reserved}
use kyvernetria.Prelude.Int.{ℤ, pos, ltb_ℤ, eqb_ℤ}
use kyvernetria.Prelude.{
  ℕ, Bool, true, false, not, ◌&&◌, String, Option, none, some, if◌then◌else◌, str_eq,
}

-- What the API answers when the placeholders are released: whether they could be looked up, whether
-- the deletion succeeds or finds them gone, and the live placeholder pods in the informer's cache.
pub record ReleaseApi : Type 0 where
  pub read : Bool
  pub deleted : Bool
  pub held : ℕ

abbrev pub owned_by : String → Option String → Bool
owned_by uid none = false
owned_by uid (some owner) = str_eq owner uid

abbrev pub release_found : ReleaseApi → String → Option Placenta → Cluster → Cluster × Option ℕ
release_found api uid none k = (k, some api.held)
release_found api uid (some p) k =
    if not (owned_by uid p.owner)
    then (k, some api.held)
    else (if api.deleted then (record k { placenta = none }, some api.held) else (k, none))

-- releasePlacenta: how many placeholder pods still hold room, or `none` for an error.
unfoldable pub release_placenta : ReleaseApi → String → Cluster → Cluster × Option ℕ
release_placenta api uid k = if api.read then release_found api uid k.placenta k else (k, none)

abbrev pub fresh_placenta : String → ℤ → String → Placenta
fresh_placenta uid n hash = record { owner = some uid; replicas = some n; hash = hash }

-- What reserving meets: whether the placeholders could be looked up and written, the due date if it can
-- be read, and whether the size can.
pub record ReserveApi : Type 0 where
  pub read : Bool
  pub written : Bool
  pub created_at : ℤ
  pub due_at : Option ℤ
  pub size_ok : Bool
  pub hash : String

abbrev pub ensure_found : ReserveApi → String → ℤ → Option Placenta → Cluster → Cluster × Bool
ensure_found api uid n none k =
    if api.written
    then (record k { placenta = some (fresh_placenta uid n api.hash) }, false)
    else (k, true)
ensure_found api uid n (some p) k =
    if not (owned_by uid p.owner)
    then (k, true)
    else (if eqb_ℤ (replicas_of p.replicas) n && str_eq p.hash api.hash
        then (k, false)
        else (if api.written
            then (
              record k { placenta = some (record p { replicas = some n; hash = api.hash }) },
              false,
            )
            else (k, true)))

-- ensurePlacenta; the flag says that it returned an error.
unfoldable pub ensure_placenta : ReserveApi → String → ℤ → Cluster → Cluster × Bool
ensure_placenta api uid n k = if api.read then ensure_found api uid n k.placenta k else (k, true)

abbrev pub phase_of_trimester : ℤ → Phase
phase_of_trimester tri = if eqb_ℤ tri (pos 0) then due else expecting

abbrev pub screened_up_to : ℤ → ℤ → ℤ
screened_up_to tri done = if ltb_ℤ done tri then tri else done

unfoldable pub expect : ReserveApi → String → ℤ → ℤ → Status → Cluster → Pass
unfolding ensure_placenta
expect api uid tri n g k =
    let (k', failed) = ensure_placenta api uid n k in
    record {
      status = record g {
        trimester = tri;
        reserved = n;
        phase = phase_of_trimester tri;
        screened_trimester = screened_up_to tri g.screened_trimester;
      };
      cluster = k';
      failed = failed;
    }

unfoldable pub pregnancy_due : ReserveApi → String → ℤ → Spec → Option ℤ → Status → Cluster → Pass
unfolding expect
pregnancy_due api uid now s none g k = succeeds (record g { phase = expecting }) k
pregnancy_due api uid now s (some at) g k =
    if not api.size_ok
    then succeeds (record g { phase = expecting }) k
    else expect api uid (trimester api.created_at at now)
        (reserved (trimester api.created_at at now) s.replicas) g k

-- (c *Controller).pregnancy.
unfoldable pub pregnancy : ReserveApi → String → ℤ → Spec → Status → Cluster → Pass
unfolding pregnancy_due
pregnancy api uid now s g k = pregnancy_due api uid now s api.due_at g k
