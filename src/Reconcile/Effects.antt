-- ===== src/Reconcile/Effects.antt =====
-- What a round of a reconciler does to the scheduler's cache and to the watchers.
use nvidia_gpu_scheduler.Prelude.{ℕ, ◌≡◌, refl, Option, none, some, String, if◌then◌else◌}
use nvidia_gpu_scheduler.Api.{GpuNode, GpuPod}
use nvidia_gpu_scheduler.NodeCache.{GpuNodeCache, set_gpu_node}
use nvidia_gpu_scheduler.Watch.{WatchIndex, Event, EventType, deleted, synced, notify_watchers}
use nvidia_gpu_scheduler.Watch.Heap.{has_chan, offered}
use nvidia_gpu_scheduler.Watch.Laws.{IsLive, watched, notify_watchers_lem}
use nvidia_gpu_scheduler.Reconcile.{
  Got, found, not_found, failed, deleted_gpu_node, deleted_gpu_pod, NodeServer, reconcile_gpu_node,
  reconcile_gpu_pod,
}

-- Every watcher was offered the event, and nothing else happened to the channels.
abbrev pub Notified : {A : Type 0} → Event A → WatchIndex A → WatchIndex A → Type 0
Notified e w t =
    (t.chan_watch_index ≡ w.chan_watch_index)
    × ((c : ℕ) → t.heap c ≡ (if has_chan (watched w) c then offered e (w.heap c) else w.heap c))
    × IsLive t

-- The event that a round sends, and the cache that it leaves.
abbrev pub node_event : String → String → Got GpuNode → Option (Event GpuNode)
node_event namespace name (found n) = some (n, synced)
node_event namespace name not_found = some (deleted_gpu_node namespace name, deleted)
node_event namespace name (failed e) = none

abbrev pub cache_after : Got GpuNode → GpuNodeCache → GpuNodeCache
cache_after (found n) cache = set_gpu_node n.name n cache
cache_after not_found cache = cache
cache_after (failed e) cache = cache

abbrev pub error_of : {A : Type 0} → Got A → Option String
error_of (found a) = none
error_of not_found = none
error_of (failed e) = some e

abbrev pub Effect : {A : Type 0} → Option (Event A) → WatchIndex A → WatchIndex A → Type 0
Effect none w t = t ≡ w
Effect (some e) w t = Notified e w t

told :
    {A : Type 0} (a : A) (etype : EventType) (w : WatchIndex A)
    → IsLive w
    → (t : WatchIndex A) × (notify_watchers a etype w ≡ some t) × Notified (a, etype) w t
told a etype w v =
    let (t, sent, same, by, live) = notify_watchers_lem a etype w v in (t, sent, (same, by, live))

-- A round of the GpuNode reconciler never panics between requests: on an error of the api server
-- nothing changes and the error is returned; else every watcher is offered the object, marked synced
-- where it is there and deleted where it is not. Only an object that is there is put in the cache.
pub reconcile_gpu_node_lem :
    (namespace name : String) (got : Got GpuNode) (s : NodeServer)
    → IsLive s.watchers
    → (t : NodeServer) × (reconcile_gpu_node namespace name got s ≡ some (t, error_of got))
      × (t.cache ≡ cache_after got s.cache)
      × Effect (node_event namespace name got) s.watchers t.watchers
unfolding reconcile_gpu_node
reconcile_gpu_node_lem namespace name (failed e) s v = (s, refl, refl, refl)
reconcile_gpu_node_lem namespace name not_found s v =
    let (w, sent, rest) = told (deleted_gpu_node namespace name) deleted s.watchers v in
    (record { cache = s.cache; watchers = w }, rw sent, refl, rest)
reconcile_gpu_node_lem namespace name (found n) s v =
    let (w, sent, rest) = told n synced s.watchers v in
    (record { cache = set_gpu_node n.name n s.cache; watchers = w }, rw sent, refl, rest)

abbrev pub pod_event : String → String → Got GpuPod → Option (Event GpuPod)
pod_event namespace name (found p) = some (p, synced)
pod_event namespace name not_found = some (deleted_gpu_pod namespace name, deleted)
pod_event namespace name (failed e) = none

-- A round of the GpuPod reconciler never panics between requests: on an error of the api server
-- nothing changes and the error is returned; else every watcher is offered the object, marked synced
-- where it is there and deleted where it is not.
pub reconcile_gpu_pod_lem :
    (namespace name : String) (got : Got GpuPod) (w : WatchIndex GpuPod)
    → IsLive w
    → (t : WatchIndex GpuPod) × (reconcile_gpu_pod namespace name got w ≡ some (t, error_of got))
      × Effect (pod_event namespace name got) w t
unfolding reconcile_gpu_pod
reconcile_gpu_pod_lem namespace name (failed e) w v = (w, refl, refl)
reconcile_gpu_pod_lem namespace name not_found w v =
    let (t, sent, rest) = told (deleted_gpu_pod namespace name) deleted w v in (t, rw sent, rest)
reconcile_gpu_pod_lem namespace name (found p) w v =
    let (t, sent, rest) = told p synced w v in (t, rw sent, rest)
