-- ===== src/Examples/Ending.antt =====
-- A program that begins on a terminal, and one that is told to end.
use nvidia_gpu_scheduler.Prelude.{
  ℕ, ◌+◌, ◌*◌, ◌≤◌, ◌≡◌, refl, true, false, List, [], ◌∷◌, none, some, replicate, arith,
}
use nvidia_gpu_scheduler.NameFlag.{Terminal, width}
use nvidia_gpu_scheduler.CommandLine.{FlagSet, gpuserver, init_command}
use nvidia_gpu_scheduler.CommandLine.Begin.{Begun, init_command_lem}
use nvidia_gpu_scheduler.Shutdown.{
  exited, SignalEvent, arrives, goes_on, setup_signal_handler, run_signals, signal_step, next_step,
}
use nvidia_gpu_scheduler.Api.{GpuNode, GpuPod}
use nvidia_gpu_scheduler.Watch.{WatchIndex}
use nvidia_gpu_scheduler.Shutdown.Watchers.{watcher_clean_funs, IsShut, signal_shuts_watchers}
use nvidia_gpu_scheduler.Shutdown.Counted.{arrivals, received}
use nvidia_gpu_scheduler.Shutdown.Ends.{signal_cleans, second_signal_ends}
use nvidia_gpu_scheduler.Shutdown.Twice.{after, IsCleaned, run_signals_lem}

abbrev klogflags : FlagSet
klogflags = record { name = "v"; shorthand = ""; default = "0" } ∷ []

abbrev terminal : Terminal
terminal = record { is_terminal = true; get_winsize = width 80 }

init_command_lem_example :
    Begun gpuserver klogflags terminal none (init_command gpuserver klogflags terminal none)
init_command_lem_example = init_command_lem gpuserver klogflags terminal none refl

abbrev clean_funs : List (ℕ → ℕ)
clean_funs = (λ w. w + 1) ∷ (λ w. w * 2) ∷ []

abbrev events : List SignalEvent
events = goes_on ∷ arrives ∷ goes_on ∷ goes_on ∷ arrives ∷ []

run_signals_lem_example :
    let s = run_signals events (setup_signal_handler clean_funs 3) in
    IsCleaned clean_funs 3 s × (received s.status ≤ arrivals events 0)
run_signals_lem_example = run_signals_lem events clean_funs 3

one_arrives : 1 ≤ arrivals events 0
unfolding arrivals
one_arrives = omega arith

signal_cleans_example :
    let s = run_signals events (setup_signal_handler clean_funs 3) in
    let t = run_signals (replicate 4 goes_on) s in
    (t.is_cancelled ≡ true) × (t.world ≡ after 3 clean_funs)
signal_cleans_example = signal_cleans events clean_funs 3 one_arrives

two_arrive : 2 ≤ arrivals events 0
unfolding arrivals
two_arrive = omega arith

second_signal_ends_example :
    (run_signals
      (replicate 5 goes_on)
      (run_signals events (setup_signal_handler clean_funs 3))).status
    ≡ exited
second_signal_ends_example = second_signal_ends events clean_funs 3 two_arrive

-- One client watches the pods, and none the nodes.
abbrev one_watcher : WatchIndex GpuPod
one_watcher = record {
  chan_watch_index = ("u", 0) ∷ [];
  heap = λ c. record { cap = 10; buffer = []; is_closed = false };
}

abbrev no_watcher : WatchIndex GpuNode
no_watcher = record {
  chan_watch_index = [];
  heap = λ c. record { cap = 10; buffer = []; is_closed = false };
}

abbrev four_steps : List SignalEvent
four_steps = arrives ∷ goes_on ∷ goes_on ∷ goes_on ∷ goes_on ∷ []

is_shut_down :
    (run_signals four_steps
      (setup_signal_handler watcher_clean_funs (some (one_watcher, no_watcher)))).is_cancelled
    ≡ true
unfolding run_signals signal_step next_step watcher_clean_funs
is_shut_down = refl

signal_shuts_watchers_example :
    let s =
      run_signals four_steps
        (setup_signal_handler watcher_clean_funs (some (one_watcher, no_watcher))) in
    (t : WatchIndex GpuPod) × (u : WatchIndex GpuNode) × (s.world ≡ some (t, u))
    × IsShut one_watcher t
    × IsShut no_watcher u
signal_shuts_watchers_example =
    signal_shuts_watchers four_steps one_watcher no_watcher
      (record { different = (refl, tt); all_open = (refl, tt) })
      (record { different = tt; all_open = tt }) is_shut_down
