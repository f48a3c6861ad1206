-- ===== src/Examples/Marking.antt =====
-- Polls of the lifecycle controller for a node that it has seen last at time 5, with a grace period
-- of 40.
use nvidia_gpu_scheduler.Prelude.{
  Option, ℕ, ◌≡◌, refl, true, false, ◌||◌, List, [], ◌∷◌, some, str_eq, lookup, if◌then◌else◌,
}
use nvidia_gpu_scheduler.Api.{GpuNode}
use nvidia_gpu_scheduler.Lifecycle.{Lease, Attempt, Poll, Monitor, attempt, poll}
use nvidia_gpu_scheduler.Lifecycle.Attempts.{data_after, due_label, attempt_lem}
use nvidia_gpu_scheduler.Lifecycle.Rounds.{poll_after_failed_update}
use nvidia_gpu_scheduler.Examples.Cluster.{node_a}

abbrev lease : Lease
lease = record { renew_time = some 4 }

-- The clock of an attempt at a time, which meets the lease.
abbrev at_time : ℕ → Attempt
at_time now = record {
  first_now = now;
  renew_now = now;
  check_now = now;
  observed = some (some lease);
  transition_now = now;
  healthy_now = now;
  is_updated = false;
}

abbrev seen_at_5 : Poll
seen_at_5 = record {
  save_node_health = some (record { probe_timestamp = 5; lease = some lease });
  gpunode = node_a;
  saved_health_data_map = [];
  sent = [];
}

attempt_lem_example :
    let r = attempt 40 "40s" (at_time 60) seen_at_5 in
    (r.0.gpunode.status.health ≡ due_label 40 (at_time 60) (some lease) seen_at_5)
    × (r.0.sent ≡ (
        if str_eq "True" (due_label 40 (at_time 60) (some lease) seen_at_5)
        then []
        else r.0.gpunode ∷ []))
    × (r.1 ≡ (str_eq "True" (due_label 40 (at_time 60) (some lease) seen_at_5) || false))
    × (lookup "a" r.0.saved_health_data_map ≡ some (data_after (at_time 60) (some lease) seen_at_5))
attempt_lem_example = attempt_lem 40 "40s" (at_time 60) (some lease) seen_at_5 refl

poll_after_failed_update_example :
    let r = poll 40 "40s" (at_time 60 ∷ at_time 61 ∷ []) seen_at_5 in
    (r.1 ≡ true) × (r.0.sent ≡ (attempt 40 "40s" (at_time 60) seen_at_5).0.gpunode ∷ [])
unfolding attempt
poll_after_failed_update_example =
    poll_after_failed_update 40 "40s" (at_time 60) (at_time 61) [] (some lease) (some lease)
      seen_at_5 refl refl refl refl refl

abbrev monitor : Monitor
monitor = record {
  saved = ("b", record { probe_timestamp = 5; lease = some lease }) ∷ [];
  updates = [];
}

abbrev listed : Option (List (GpuNode × List Attempt))
listed = some ((node_a, at_time 60 ∷ []) ∷ [])
