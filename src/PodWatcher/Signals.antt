-- ===== src/PodWatcher/Signals.antt =====
-- What the watcher of pods sends.
use mathlib.Core.List.{append_assoc, append-nil}
use nvidia_gpu_scheduler.Prelude.{
  Bool, true, false, not, ◌&&◌, ◌≡◌, refl, ap, sym, ◌∙◌, List, [], ◌∷◌, ◌++◌, none, some,
  if◌then◌else◌,
}
use nvidia_gpu_scheduler.PodSpec.{is_gpu_pod, is_active_pod}
use nvidia_gpu_scheduler.PodWatcher.{
  Signal, go_on, remove, Watching, watching, crashed, PodTurn, modified, deleted, other_event,
  watch_ended, stop, PodWatcher, send, on_modified, on_deleted, on_watch_ended, take_turn,
  watch_step, run_watcher,
}

-- What an event asks the server controller for.
unfoldable pub signals_of : PodTurn → List Signal
signals_of (modified none) = []
signals_of (modified (some pod)) = if is_active_pod pod && is_gpu_pod pod then go_on ∷ [] else []
signals_of (deleted none) = []
signals_of (deleted (some pod)) = if is_gpu_pod pod then remove pod.namespace pod.name ∷ [] else []
signals_of other_event = []
signals_of (watch_ended granted) = go_on ∷ []
signals_of stop = []

-- Every watch that is asked for is granted.
unfoldable pub Granted : List PodTurn → Type 0
Granted [] = Unit
Granted (watch_ended granted ∷ turns) = (granted ≡ true) × Granted turns
Granted (t ∷ turns) = Granted turns

unfoldable pub signals_of_all : List PodTurn → List Signal
signals_of_all [] = []
signals_of_all (t ∷ turns) = signals_of t ++ signals_of_all turns

send_if :
    (b : Bool) (x : Signal) (pw : PodWatcher)
    → (if b then send x pw else pw) ≡ record pw { sent = pw.sent ++ (if b then x ∷ [] else []) }
send_if true x pw = refl
send_if false x pw = ap (λ l. record pw { sent = l }) (sym (append-nil pw.sent))

send_unless :
    (b : Bool) (x : Signal) (pw : PodWatcher)
    → (if not b then pw else send x pw) ≡ record pw { sent = pw.sent ++ (if b then x ∷ [] else []) }
send_unless true x pw = refl
send_unless false x pw = ap (λ l. record pw { sent = l }) (sym (append-nil pw.sent))

send_nothing : (pw : PodWatcher) → pw ≡ record pw { sent = pw.sent ++ [] }
send_nothing pw = ap (λ l. record pw { sent = l }) (sym (append-nil pw.sent))

-- A turn of a running watcher whose next watch is granted.
turn_sends :
    (t : PodTurn) (pw : PodWatcher)
    → Granted (t ∷ [])
    → take_turn t pw ≡ record pw { sent = pw.sent ++ signals_of t }
unfolding take_turn on_modified on_deleted on_watch_ended signals_of Granted
turn_sends (modified none) pw g = send_nothing pw
turn_sends (modified (some pod)) pw g = send_if (is_active_pod pod && is_gpu_pod pod) go_on pw
turn_sends (deleted none) pw g = send_nothing pw
turn_sends (deleted (some pod)) pw g =
    send_unless (is_gpu_pod pod) (remove pod.namespace pod.name) pw
turn_sends other_event pw g = send_nothing pw
turn_sends (watch_ended granted) pw g = rw g.0 refl
turn_sends stop pw g = send_nothing pw

step_watching :
    (t : PodTurn) (x : Watching) (pw : PodWatcher)
    → x ≡ watching
    → watch_step t x pw ≡ take_turn t pw
unfolding watch_step
step_watching t x pw h = rw h refl

head-Granted :
    (t : PodTurn) (turns : List PodTurn) → Granted (t ∷ turns) → Granted (t ∷ []) × Granted turns
unfolding Granted
head-Granted (modified o) turns g = (tt, g)
head-Granted (deleted o) turns g = (tt, g)
head-Granted other_event turns g = (tt, g)
head-Granted (watch_ended granted) turns g = ((g.0, tt), g.1)
head-Granted stop turns g = (tt, g)

-- As long as every watch that ends is granted anew, a running watcher sends exactly what the events
-- ask for, in their order: one goonChan signal for each change of a pod that is active and asks for
-- gpus, one removeChan entry with the pod's names for a deleted pod that asks for gpus, one goonChan signal for
-- each watch that ends, and nothing else. It is still running after any of them, the stop signal too.
pub run_watcher-sent :
    (turns : List PodTurn) (pw : PodWatcher)
    → pw.status ≡ watching
    → Granted turns
    → run_watcher turns pw ≡ record pw { sent = pw.sent ++ signals_of_all turns }
unfolding run_watcher signals_of_all
run_watcher-sent [] pw h g = send_nothing pw
run_watcher-sent (t ∷ turns) pw h g =
    let p = head-Granted t turns g in
    ap (run_watcher turns) (step_watching t pw.status pw h ∙ turn_sends t pw p.0)
    ∙ run_watcher-sent turns (record pw { sent = pw.sent ++ signals_of t }) h p.1
    ∙ ap (λ l. record pw { sent = l }) (append_assoc pw.sent (signals_of t) (signals_of_all turns))

stay_crashed :
    (turns : List PodTurn) (pw : PodWatcher)
    → run_watcher turns (record pw { status = crashed }) ≡ record pw { status = crashed }
unfolding run_watcher watch_step
stay_crashed [] pw = refl
stay_crashed (t ∷ turns) pw = stay_crashed turns pw

refused_twice :
    (t : PodTurn) (turns : List PodTurn) (pw : PodWatcher)
    → run_watcher turns
        (watch_step t (take_turn (watch_ended false) pw).status (take_turn (watch_ended false) pw))
      ≡ record pw { status = crashed; sent = pw.sent ++ go_on ∷ [] }
unfolding take_turn on_watch_ended watch_step
refused_twice t turns pw = stay_crashed turns (send go_on pw)

-- A watch that ends and is not granted anew is the last that a running watcher reports: it signals
-- goonChan once and the next round ends the process by a panic, whatever it would have taken.
pub run_watcher-refused :
    (t : PodTurn) (turns : List PodTurn) (pw : PodWatcher)
    → pw.status ≡ watching
    → run_watcher (watch_ended false ∷ t ∷ turns) pw
      ≡ record pw { status = crashed; sent = pw.sent ++ go_on ∷ [] }
unfolding run_watcher
run_watcher-refused t turns pw h =
    ap (λ p. run_watcher turns (watch_step t p.status p))
      (step_watching (watch_ended false) pw.status pw h)
    ∙ refused_twice t turns pw
