-- ===== src/Session/Request.antt =====
-- How a request of getGpuPodHandler or getGpuNodeHandler begins, and the plain list.
use nvidia_gpu_scheduler.Prelude.{
  ℕ, Bool, List, [], Option, none, some, String, str_eq, if◌then◌else◌,
}
use nvidia_gpu_scheduler.Api.{GpuNode, GpuPod}
use nvidia_gpu_scheduler.Watch.{WatchIndex, add_watcher}
use nvidia_gpu_scheduler.Session.{Session, begin_session}

-- What a request leads to, with the index of the watchers after it: the status 200 and a session
-- that goes on in the steps of Session, the status 500, or the status 200 with a list.
pub data Answer (A : Type 0) : Type 0 where
  watching : Session A → WatchIndex A → Answer A
  internal_server_error : WatchIndex A → Answer A
  json_list : List A → WatchIndex A → Answer A

module _ {A : Type 0} where
  -- The items after List: its error is logged, and the list stays as it was made.
  abbrev pub items_of : Option (List A) → List A
  items_of none = []
  items_of (some items) = items

  -- The query's value of "watch", whether the writer is a http.Flusher, the watcher's id and channel,
  -- and what List answers.
  unfoldable pub get_handler :
      String → Bool → String → ℕ → Option (List A) → WatchIndex A → Answer A
  unfolding add_watcher begin_session
  get_handler watch is_flusher watch_uuid watch_chan answer index =
      let added = add_watcher watch_uuid watch_chan index in
      if str_eq watch "true"
      then (if is_flusher
          then watching (begin_session (items_of answer)) added
          else internal_server_error added)
      else json_list (items_of answer) index

unfoldable pub get_gpu_pod_handler :
    String → Bool → String → ℕ → Option (List GpuPod) → WatchIndex GpuPod → Answer GpuPod
unfolding get_handler
get_gpu_pod_handler = get_handler

unfoldable pub get_gpu_node_handler :
    String → Bool → String → ℕ → Option (List GpuNode) → WatchIndex GpuNode → Answer GpuNode
unfolding get_handler
get_gpu_node_handler = get_handler
