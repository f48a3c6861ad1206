-- ===== src/PodWatcher.antt =====
-- How gpuserver-ds follows the pods of its node: NewPodWatcher and Start of
-- pkg/gpuserver-ds/controller/podwatcher.go. The api server is a parameter: what comes through the
-- watch, and whether a new watch is granted.
pub mod Signals
use nvidia_gpu_scheduler.Prelude.{
  Bool, true, false, not, ◌&&◌, List, [], ◌∷◌, ◌++◌, Option, none, some, String, str_eq,
  if◌then◌else◌,
}
use Prim.Native.String.{◌++◌ as concat}
use nvidia_gpu_scheduler.Api.{Pod}
use nvidia_gpu_scheduler.PodSpec.{is_gpu_pod, is_active_pod}

-- What is sent through goonChan, and through removeChan: the namespace and the name of
-- PodResourcesDEL[0].
pub data Signal : Type 0 where
  go_on : Signal
  remove : String → String → Signal

-- Start's goroutine waits in its select, has gone, or panics: the channel of a nil watch is asked for.
pub data Watching : Type 0 where
  watching : Watching
  watch_is_nil : Watching
  crashed : Watching

-- What the select takes: an event of the watch, whose object is a pod or something else, the end of
-- the watch with whether the next one is granted, or the stop signal.
pub data PodTurn : Type 0 where
  modified : Option Pod → PodTurn
  deleted : Option Pod → PodTurn
  other_event : PodTurn
  watch_ended : Bool → PodTurn
  stop : PodTurn

pub record PodWatcher : Type 0 where
  pub node_name : String
  pub status : Watching
  -- all that has been sent
  pub sent : List Signal

pub data NewPodWatcher : Type 0 where
  new_watcher : PodWatcher → NewPodWatcher
  new_error : String → NewPodWatcher

-- The environment's NODENAME.
unfoldable pub new_pod_watcher : String → NewPodWatcher
new_pod_watcher node_name =
    if str_eq node_name ""
    then new_error "unable get env NODENAME"
    else new_watcher (record { node_name = node_name; status = watching; sent = [] })

-- The field selector of the watch.
unfoldable pub field_selector : PodWatcher → String
field_selector pw = concat "spec.nodeName=" pw.node_name

abbrev pub send : Signal → PodWatcher → PodWatcher
send x pw = record pw { sent = pw.sent ++ x ∷ [] }

-- case watch.Modified
unfoldable pub on_modified : Option Pod → PodWatcher → PodWatcher
unfolding is_active_pod is_gpu_pod
on_modified none pw = pw
on_modified (some pod) pw = if is_active_pod pod && is_gpu_pod pod then send go_on pw else pw

-- case watch.Deleted
unfoldable pub on_deleted : Option Pod → PodWatcher → PodWatcher
unfolding is_gpu_pod
on_deleted none pw = pw
on_deleted (some pod) pw =
    if not (is_gpu_pod pod) then pw else send (remove pod.namespace pod.name) pw

-- The watch is asked for again; the error of that is only logged.
unfoldable pub on_watch_ended : Bool → PodWatcher → PodWatcher
on_watch_ended granted pw = send go_on (if granted then pw else record pw { status = watch_is_nil })

pub take_turn : PodTurn → PodWatcher → PodWatcher
unfolding on_modified on_deleted on_watch_ended
take_turn (modified object) pw = on_modified object pw
take_turn (deleted object) pw = on_deleted object pw
take_turn other_event pw = pw
take_turn (watch_ended granted) pw = on_watch_ended granted pw
take_turn stop pw = pw

-- One round of the loop. The first thing that a round does is to ask the watch for its channel.
unfoldable pub watch_step : PodTurn → Watching → PodWatcher → PodWatcher
unfolding take_turn
watch_step t watching pw = take_turn t pw
watch_step t watch_is_nil pw = record pw { status = crashed }
watch_step t crashed pw = pw

unfoldable pub run_watcher : List PodTurn → PodWatcher → PodWatcher
unfolding watch_step
run_watcher [] pw = pw
run_watcher (t ∷ turns) pw = run_watcher turns (watch_step t pw.status pw)
