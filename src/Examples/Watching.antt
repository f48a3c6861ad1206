-- ===== src/Examples/Watching.antt =====
-- The watchers of two clients, and the rounds of the reconcilers that notify them.
use nvidia_gpu_scheduler.Prelude.{
  ℕ, ◌≡◌, refl, false, [], ◌∷◌, ◌++◌, none, some, ◌==◌, if◌then◌else◌, lookup,
}
use nvidia_gpu_scheduler.Api.{GpuNode}
use nvidia_gpu_scheduler.Watch.{
  Chan, WatchIndex, synced, notify_watchers, disconnect, list_watcher, send_all,
}
use nvidia_gpu_scheduler.Watch.Heap.{has_chan, offered, shut}
use nvidia_gpu_scheduler.Watch.Laws.{IsLive, watched, notify_watchers_lem, disconnect_lem}
use nvidia_gpu_scheduler.Watch.Races.{notify_after_disconnect}
use nvidia_gpu_scheduler.Reconcile.{found, NodeServer, reconcile_gpu_node}
use nvidia_gpu_scheduler.Reconcile.Effects.{Effect, node_event, cache_after, reconcile_gpu_node_lem}
use nvidia_gpu_scheduler.Examples.Cluster.{node_a, cache}

-- Two clients, on channels with room for one event.
abbrev two_watchers : {A : Type 0} → WatchIndex A
two_watchers = record {
  chan_watch_index = ("u1", 1) ∷ ("u2", 2) ∷ [];
  heap = λ c. record { cap = 1; buffer = []; is_closed = false };
}

two-IsLive : {A : Type 0} → IsLive (two_watchers {A = A})
two-IsLive = record { different = (refl, (refl, tt)); all_open = (refl, (refl, tt)) }

notify_watchers_lem_example :
    (t : WatchIndex GpuNode) × (notify_watchers node_a synced two_watchers ≡ some t)
    × (t.chan_watch_index ≡ ("u1", 1) ∷ ("u2", 2) ∷ [])
    × ((c : ℕ)
        → t.heap c ≡ (
            if has_chan (watched (two_watchers {A = GpuNode})) c
            then offered (node_a, synced) (two_watchers.heap c)
            else two_watchers.heap c))
    × IsLive t
notify_watchers_lem_example = notify_watchers_lem node_a synced two_watchers two-IsLive

watches_second : lookup "u2" (two_watchers {A = GpuNode}).chan_watch_index ≡ some 2
unfolding lookup
watches_second = refl

disconnect_lem_example :
    (t : WatchIndex GpuNode) × (disconnect "u2" 2 two_watchers ≡ some t)
    × IsLive t
    × (has_chan (watched t) 2 ≡ false)
    × ((c : ℕ) → t.heap c ≡ (if 2 == c then shut (two_watchers.heap c) else two_watchers.heap c))
disconnect_lem_example = disconnect_lem "u2" 2 two_watchers two-IsLive watches_second

second_ahead : list_watcher (two_watchers {A = GpuNode}) ≡ (1 ∷ []) ++ (2 ∷ [])
unfolding list_watcher
second_ahead = refl

notify_after_disconnect_example :
    (h : ℕ → Chan GpuNode) × (t : WatchIndex GpuNode) × (send_all
        (node_a, synced)
        (1 ∷ [])
        (two_watchers.heap)
      ≡ some h)
    × (disconnect "u2" 2 (record two_watchers { heap = h }) ≡ some t)
    × (send_all (node_a, synced) (2 ∷ []) t.heap ≡ none)
notify_after_disconnect_example =
    notify_after_disconnect (node_a, synced) "u2" 2 two_watchers (1 ∷ []) (2 ∷ []) two-IsLive
      second_ahead watches_second refl

abbrev server : NodeServer
server = record { cache = cache; watchers = two_watchers }

reconcile_gpu_node_lem_example :
    (t : NodeServer) × (reconcile_gpu_node "" "a" (found node_a) server ≡ some (t, none))
    × (t.cache ≡ cache_after (found node_a) cache)
    × Effect (node_event "" "a" (found node_a)) two_watchers t.watchers
reconcile_gpu_node_lem_example = reconcile_gpu_node_lem "" "a" (found node_a) server two-IsLive
