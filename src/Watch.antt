-- ===== src/Watch.antt =====
-- The notification of the api's watchers: pkg/util/server/watcher/watcher_index.go and event.go,
-- and notifyWatchersGpuNode and notifyWatchersGpuPod of pkg/gpuserver/controller. Channels live on a
-- heap, since the index, the handler of a request and a notification share them. `none` is a panic:
-- Go panics on a send to a closed channel, in a select too, and on a second close.
-- The uuid of a watcher comes from outside; the lock of the index makes each method one step.
pub mod Heap
pub mod Laws
pub mod Races
use nvidia_gpu_scheduler.Prelude.{
  ℕ, Bool, true, false, List, [], ◌∷◌, ◌++◌, Option, none, some, String, Map, insert, delete,
  values, length, ltb, ◌==◌, if◌then◌else◌,
}

pub data EventType : Type 0 where
  deleted synced : EventType

-- GpuNodeEvent and GpuPodEvent: the resource, and what became of it.
abbrev pub Event : Type 0 → Type 0
Event A = A × EventType

module _ (A : Type 0) where
  pub record Chan : Type 0 where
    pub cap : ℕ
    pub buffer : List (Event A)
    pub is_closed : Bool

  pub record WatchIndex : Type 0 where
    pub chan_watch_index : Map ℕ
    pub heap : ℕ → Chan

module _ {A : Type 0} where
  abbrev pub put : (ℕ → Chan A) → ℕ → Chan A → ℕ → Chan A
  put heap k c j = if k == j then c else heap j

  -- close(ch)
  unfoldable pub close : ℕ → (ℕ → Chan A) → Option (ℕ → Chan A)
  close ch heap =
      if (heap ch).is_closed
      then none
      else some (put heap ch (record (heap ch) { is_closed = true }))

  -- select { case ch <- e: default: }
  unfoldable pub send_or_drop : Event A → ℕ → (ℕ → Chan A) → Option (ℕ → Chan A)
  send_or_drop e ch heap =
      if (heap ch).is_closed
      then none
      else if ltb (length (heap ch).buffer) (heap ch).cap
      then some (put heap ch (record (heap ch) { buffer = (heap ch).buffer ++ e ∷ [] }))
      else some heap

  -- The heap's methods, one channel after the other.
  unfoldable pub close_all : List ℕ → (ℕ → Chan A) → Option (ℕ → Chan A)
  unfolding close
  close_all [] heap = some heap
  close_all (ch ∷ chs) heap = elim (close ch heap) [ none ↦ none | some h ↦ close_all chs h ]

  unfoldable pub send_all : Event A → List ℕ → (ℕ → Chan A) → Option (ℕ → Chan A)
  unfolding send_or_drop
  send_all e [] heap = some heap
  send_all e (ch ∷ chs) heap = elim (send_or_drop e ch heap) [
    | none ↦ none
    | some h ↦ send_all e chs h
  ]

  unfoldable pub add_watcher : String → ℕ → WatchIndex A → WatchIndex A
  unfolding insert
  add_watcher uuid ch w = record w { chan_watch_index = insert uuid ch w.chan_watch_index }

  unfoldable pub del_watcher : String → WatchIndex A → WatchIndex A
  unfolding delete
  del_watcher uuid w = record w { chan_watch_index = delete uuid w.chan_watch_index }

  unfoldable pub list_watcher : WatchIndex A → List ℕ
  list_watcher w = values w.chan_watch_index

  abbrev pub with_heap : WatchIndex A → Option (ℕ → Chan A) → Option (WatchIndex A)
  with_heap w none = none
  with_heap w (some h) = some (record w { heap = h })

  unfoldable pub clean_watcher : WatchIndex A → Option (WatchIndex A)
  unfolding close_all
  clean_watcher w = elim (close_all (values w.chan_watch_index) w.heap) [
    | none ↦ none
    | some h ↦ some (record { chan_watch_index = []; heap = h })
  ]

  -- notifyWatchers…: the list is taken first, and then each channel is tried.
  unfoldable pub notify_watchers : A → EventType → WatchIndex A → Option (WatchIndex A)
  unfolding send_all list_watcher
  notify_watchers a etype w = with_heap w (send_all (a, etype) (list_watcher w) w.heap)

  -- What the handler of a watch request does when its client goes away.
  unfoldable pub disconnect : String → ℕ → WatchIndex A → Option (WatchIndex A)
  unfolding del_watcher close
  disconnect uuid ch w = let w' = del_watcher uuid w in with_heap w' (close ch w'.heap)
