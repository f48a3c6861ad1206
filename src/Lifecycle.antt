-- ===== src/Lifecycle.antt =====
-- The lifecycle controller of gpuserver: pkg/gpuserver/controller/gpunode_lifecycle_controller.go.
-- The clock, the lease lister and the api server answer from outside: what one run of the poll's
-- condition gets from them is an `Attempt`. wait.PollImmediate runs the condition until it is true
-- or the time is over, so the attempts that it has time for are an argument.
pub mod Attempts
pub mod Rounds
use Prim.Native.String.{◌++◌ as concat}
use nvidia_gpu_scheduler.Prelude.{
  ℕ, ◌+◌, Bool, true, false, List, [], ◌∷◌, ◌++◌, Option, none, some, String, str_eq, Map, lookup,
  insert, ltb, if◌then◌else◌,
}
use nvidia_gpu_scheduler.Api.{GpuNode, status_health, status_not_health}

pub record Lease : Type 0 where
  pub renew_time : Option ℕ

-- RenewTime.Before: false where either time is missing
abbrev pub before : Option ℕ → Option ℕ → Bool
before none u = false
before (some t) none = false
before (some t) (some u) = ltb t u

pub record NodeHealthData : Type 0 where
  pub probe_timestamp : ℕ
  pub lease : Option Lease

pub record Attempt : Type 0 where
  -- nc.now() where the node has no saved data, where the lease is new, and for the check
  pub first_now : ℕ
  pub renew_now : ℕ
  pub check_now : ℕ
  -- Get of the lease: `none` is an error, `some none` a nil lease
  pub observed : Option (Option Lease)
  -- metav1.Now() for the two times of the status
  pub transition_now : ℕ
  pub healthy_now : ℕ
  -- whether UpdateStatus succeeds
  pub is_updated : Bool

-- What the condition works on: the saved data that it holds, its copy of the GpuNode, the map of the
-- controller, and the objects that it has sent to UpdateStatus so far.
pub record Poll : Type 0 where
  pub save_node_health : Option NodeHealthData
  pub gpunode : GpuNode
  pub saved_health_data_map : Map NodeHealthData
  pub sent : List GpuNode

-- if saveNodeHealth == nil { … }
abbrev pub ensure_health : ℕ → Option NodeHealthData → NodeHealthData
ensure_health now none = record { probe_timestamp = now; lease = none }
ensure_health now (some d) = d

-- The lease is new, or newer than the saved one.
abbrev pub is_newer : Option Lease → Lease → Bool
is_newer none l = true
is_newer (some old) l = before old.renew_time l.renew_time

unfoldable pub observe : ℕ → Option Lease → NodeHealthData → NodeHealthData
observe now none d = d
observe now (some l) d =
    if is_newer d.lease l then record { probe_timestamp = now; lease = some l } else d

abbrev pub health_label : Bool → String
health_label true = status_health
health_label false = status_not_health

abbrev pub first_time : ℕ → Option ℕ → Option ℕ
first_time now none = some now
first_time now (some t) = some t

-- The changes to the status where the mark is not there yet.
unfoldable pub mark_status : Bool → Attempt → String → GpuNode → GpuNode
mark_status true a msg n = record n {
  status = record n.status {
    message = msg;
    health = status_health;
    last_transition_time = some a.transition_now;
    last_healthy_time = some a.healthy_now;
  };
}
mark_status false a msg n = record n {
  status = record n.status {
    message = msg;
    health = status_not_health;
    last_transition_time = some a.transition_now;
    last_healthy_time = first_time a.healthy_now n.status.last_healthy_time;
  };
}

-- updateGpuNodeStatus: the new state, and whether it returns no error.
unfoldable pub update_gpu_node_status : Bool → Attempt → String → Poll → Poll × Bool
unfolding mark_status
update_gpu_node_status healthy a msg p =
    if str_eq p.gpunode.status.health (health_label healthy)
    then (p, true)
    else (let n = mark_status healthy a msg p.gpunode in
        (record p { gpunode = n; sent = p.sent ++ n ∷ [] }, a.is_updated))

-- What lasts from node to node.
pub record Monitor : Type 0 where
  pub saved : Map NodeHealthData
  pub updates : List GpuNode

-- The fields of Controller that are numbers or change: the periods and what is known of the nodes.
pub record Controller : Type 0 where
  pub node_monitor_period : ℕ
  pub node_monitor_grace_period : ℕ
  pub saved_health_data_map : Map NodeHealthData

abbrev pub new_node_lifecycle_controller : ℕ → ℕ → Controller
new_node_lifecycle_controller period grace = record {
  node_monitor_period = period;
  node_monitor_grace_period = grace;
  saved_health_data_map = [];
}

-- Where the first round begins.
abbrev pub begin_monitor : Controller → Monitor
begin_monitor nc = record { saved = nc.saved_health_data_map; updates = [] }

unfoldable pub begin_poll : GpuNode → Monitor → Poll
unfolding lookup
begin_poll n m = record {
  save_node_health = lookup n.name m.saved;
  gpunode = n;
  saved_health_data_map = m.saved;
  sent = m.updates;
}

abbrev pub end_poll : Poll → Monitor
end_poll p = record { saved = p.saved_health_data_map; updates = p.sent }

-- After the grace period since a renewal was seen.
unfoldable pub is_stale : ℕ → Attempt → NodeHealthData → Bool
is_stale grace a d = ltb (d.probe_timestamp + grace) a.check_now

-- `grace` is nodeMonitorGracePeriod, and `period` its text.
module _ (grace : ℕ) (period : String) where
  check_lease : Attempt → NodeHealthData → Poll → Poll × Bool
  unfolding update_gpu_node_status is_stale
  check_lease a d p =
      if is_stale grace a d
      then update_gpu_node_status false a
          (concat "Lease of GpuNode is not refreshed in " (concat period ".")) p
      else update_gpu_node_status true a
          (concat "Lease of GpuNode is refreshed in " (concat period ".")) p

  pub attempt_with : Attempt → Option (Option Lease) → NodeHealthData → Poll → Poll × Bool
  unfolding check_lease observe insert
  attempt_with a none d p = (record p { save_node_health = some d }, false)
  attempt_with a (some l) d p =
      let d' = observe a.renew_now l d in
      check_lease a d' (record p {
        save_node_health = some d';
        saved_health_data_map = insert p.gpunode.name d' p.saved_health_data_map;
      })

  -- The condition of the poll: the new state, and whether the poll is over.
  unfoldable pub attempt : Attempt → Poll → Poll × Bool
  unfolding attempt_with
  attempt a p = attempt_with a a.observed (ensure_health a.first_now p.save_node_health) p

  -- wait.PollImmediate with this condition: the new state, and false for a timeout.
  unfoldable pub poll : List Attempt → Poll → Poll × Bool
  unfolding attempt
  poll [] p = (p, false)
  poll (a ∷ runs) p =
      let r = attempt a p in let rest = poll runs r.0 in if r.1 then (r.0, true) else rest

  unfoldable pub monitor_nodes : List (GpuNode × List Attempt) → Monitor → Monitor
  unfolding poll begin_poll
  monitor_nodes [] m = m
  monitor_nodes ((n, runs) ∷ ns) m = monitor_nodes ns (end_poll (poll runs (begin_poll n m)).0)

  -- monitorGpuNodeHealth, from the answer to List: the new state, and whether it returns no error.
  unfoldable pub monitor_gpu_node_health :
      Option (List (GpuNode × List Attempt)) → Monitor → Monitor × Bool
  unfolding monitor_nodes
  monitor_gpu_node_health none m = (m, false)
  monitor_gpu_node_health (some ns) m = (monitor_nodes ns m, true)

  -- The rounds of wait.UntilWithContext until the context is done.
  pub monitor_rounds : List (Option (List (GpuNode × List Attempt))) → Monitor → Monitor
  unfolding monitor_gpu_node_health
  monitor_rounds [] m = m
  monitor_rounds (listed ∷ rounds) m = monitor_rounds rounds (monitor_gpu_node_health listed m).0

  -- Run: `none` is the panic where the caches cannot be synced.
  unfoldable pub run_controller :
      Bool → List (Option (List (GpuNode × List Attempt))) → Monitor → Option Monitor
  unfolding monitor_rounds
  run_controller synced rounds m = if synced then some (monitor_rounds rounds m) else none
