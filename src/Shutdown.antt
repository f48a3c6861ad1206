-- ===== src/Shutdown.antt =====
-- How the programs end by a signal: pkg/util/signal/signal.go. A clean-up function is a function on
-- the state of the program; none of them is taken to panic. signal.Notify never waits: a signal for
-- which the channel has no room is dropped.
pub mod Counted
pub mod Ends
pub mod Twice
pub mod Watchers
use nvidia_gpu_scheduler.Prelude.{
  ℕ, zero, suc, ◌+◌, ◌-◌, Bool, true, false, List, [], ◌∷◌, ◌++◌, ltb, ◌==◌, if◌then◌else◌,
}

-- AddCleanFuncs
abbrev pub add_clean_funcs : {W : Type 0} → List (W → W) → List (W → W) → List (W → W)
add_clean_funcs cfs clean_funs = clean_funs ++ cfs

-- Where the goroutine stands: at its first receive, in the loop over the clean-up functions with
-- those that it has not run, at its second receive, or the process has ended with 1.
pub data SignalStatus (W : Type 0) : Type 0 where
  first : SignalStatus W
  cleaning : List (W → W) → SignalStatus W
  second : SignalStatus W
  exited : SignalStatus W

pub record SignalHandler (W : Type 0) : Type 0 where
  pub status : SignalStatus W
  -- how many signals c holds
  pub chan : ℕ
  pub clean_funs : List (W → W)
  pub world : W
  -- stopCtx is done
  pub is_cancelled : Bool

-- make(chan os.Signal, 2)
abbrev pub signal_cap : ℕ
signal_cap = 2

abbrev pub setup_signal_handler : {W : Type 0} → List (W → W) → W → SignalHandler W
setup_signal_handler clean_funs w = record {
  status = first;
  chan = 0;
  clean_funs = clean_funs;
  world = w;
  is_cancelled = false;
}

pub data SignalEvent : Type 0 where
  -- SIGINT or SIGTERM comes
  arrives : SignalEvent
  -- the goroutine goes on, if it can
  goes_on : SignalEvent

module _ {W : Type 0} where
  -- The next step of the goroutine: a receive, which waits while c is empty, one clean-up function,
  -- or cancelFunc() at the end of the loop.
  unfoldable pub next_step : SignalStatus W → SignalHandler W → SignalHandler W
  next_step first s =
      if s.chan == 0 then s else record s { status = cleaning s.clean_funs; chan = s.chan - 1 }
  next_step (cleaning []) s = record s { status = second; is_cancelled = true }
  next_step (cleaning (f ∷ fs)) s = record s { status = cleaning fs; world = f s.world }
  next_step second s = if s.chan == 0 then s else record s { status = exited; chan = s.chan - 1 }
  next_step exited s = s

  unfoldable pub signal_step : SignalEvent → SignalHandler W → SignalHandler W
  unfolding next_step
  signal_step arrives s = if ltb s.chan signal_cap then record s { chan = s.chan + 1 } else s
  signal_step goes_on s = next_step s.status s

  unfoldable pub run_signals : List SignalEvent → SignalHandler W → SignalHandler W
  unfolding signal_step
  run_signals [] s = s
  run_signals (e ∷ events) s = run_signals events (signal_step e s)
