-- ===== src/Shutdown/Ends.antt =====
-- What a run of the signal handler comes to.
use nvidia_gpu_scheduler.Prelude.{
  ℕ, ◌<◌, zero, suc, ◌+◌, ◌-◌, ◌≤◌, ◌≡◌, refl, ap, ◌∙◌, inl, inr, Bool-cases, true, false, List, [],
  ◌∷◌, ◌++◌, length, replicate, ◌==◌, arith,
}
use nvidia_gpu_scheduler.Shutdown.{
  SignalStatus, first, cleaning, second, exited, SignalHandler, setup_signal_handler, SignalEvent,
  goes_on, next_step, signal_step, run_signals,
}
use nvidia_gpu_scheduler.Shutdown.Twice.{
  after, is_over, left_of, run-IsCleaned, begin-IsCleaned, cancelled-after,
}
use nvidia_gpu_scheduler.Shutdown.Counted.{
  arrivals, received, IsCounted, run-IsCounted, begin-IsCounted, at_least, pos-eqb,
}

eqb_zero : (c : ℕ) → (c == 0) ≡ true → c ≡ 0
eqb_zero c h = ground arith

length-rest : {A : Type 0} (xs ys : List A) → length ys ≤ length (xs ++ ys)
length-rest [] ys = omega arith
length-rest (x ∷ xs) ys = omega (arith, length-rest xs ys)

module _ {W : Type 0} where
  -- How many steps of the goroutine are left to the end of the process.
  abbrev distance : List (W → W) → SignalStatus W → ℕ
  distance fs first = length fs + 3
  distance fs (cleaning rest) = length rest + 2
  distance fs second = 1
  distance fs exited = 0

  abbrev to_go : SignalHandler W → ℕ
  to_go s = distance s.clean_funs s.status

  steps_from :
      (m : ℕ) (x : SignalStatus W) (s : SignalHandler W)
      → s.status ≡ x
      → run_signals (replicate (suc m) goes_on) s
        ≡ run_signals (replicate m goes_on) (next_step x s)
  unfolding run_signals signal_step
  steps_from m x s e = ap (λ y. run_signals (replicate m goes_on) (next_step y s)) e

  begin_cleaning :
      (s : SignalHandler W)
      → 0 < s.chan
      → next_step first s ≡ record s { status = cleaning s.clean_funs; chan = s.chan - 1 }
  unfolding next_step
  begin_cleaning s h = rw (pos-eqb s.chan h) refl

  wait_second : (s : SignalHandler W) → (s.chan == 0) ≡ true → next_step second s ≡ s
  unfolding next_step
  wait_second s h = rw h refl

  end_second :
      (s : SignalHandler W)
      → (s.chan == 0) ≡ false
      → next_step second s ≡ record s { status = exited; chan = s.chan - 1 }
  unfolding next_step
  end_second s h = rw h refl

  -- Steps bring the goroutine to its second receive (d = 1) or to the end (d = 0).
  come_to :
      (d m : ℕ) (x : SignalStatus W) (s : SignalHandler W)
      → d ≤ 1
      → s.status ≡ x
      → 2 ≤ d + (s.chan + received x)
      → distance s.clean_funs x ≤ m + d
      → to_go (run_signals (replicate m goes_on) s) ≤ d
  unfolding run_signals signal_step next_step
  come_to d zero x s small e h k = rw e (omega arith)
  come_to d (suc m) first s small e h k =
      rw
        (steps_from m first s e
          ∙ ap (run_signals (replicate m goes_on)) (begin_cleaning s (omega arith)))
        (come_to d m (cleaning s.clean_funs) _ small refl (omega arith) (omega arith))
  come_to d (suc m) (cleaning []) s small e h k =
      rw (steps_from m (cleaning []) s e)
        (come_to d m second _ small refl (omega arith) (omega arith))
  come_to d (suc m) (cleaning (f ∷ fs)) s small e h k =
      rw (steps_from m (cleaning (f ∷ fs)) s e)
        (come_to d m (cleaning fs) _ small refl (omega arith) (omega arith))
  come_to d (suc m) second s small e h k = elim (Bool-cases (s.chan == 0)) [
    | inl z ↦
        rw (steps_from m second s e ∙ ap (run_signals (replicate m goes_on)) (wait_second s z))
          (come_to d m second s small e h (omega (arith, eqb_zero s.chan z)))
    | inr z ↦
        rw (steps_from m second s e ∙ ap (run_signals (replicate m goes_on)) (end_second s z))
          (come_to d m exited _ small refl (omega arith) (omega arith))
  ]
  come_to d (suc m) exited s small e h k =
      rw (steps_from m exited s e) (come_to d m exited s small e (omega arith) (omega arith))

  distance-split :
      (fs : List (W → W)) (x : SignalStatus W) (ran : List (W → W))
      → ran ++ left_of fs x ≡ fs
      → distance fs x ≤ length fs + 3
  distance-split fs first ran e = omega arith
  distance-split fs (cleaning rest) ran e = omega (arith, length-rest ran rest, ap length e)
  distance-split fs second ran e = omega arith
  distance-split fs exited ran e = omega arith

  over_at : (fs : List (W → W)) (x : SignalStatus W) → distance fs x ≤ 1 → is_over x ≡ true
  over_at fs first h = absurd (omega arith)
  over_at fs (cleaning rest) h = absurd (omega arith)
  over_at fs second h = refl
  over_at fs exited h = refl

  ended_at : (fs : List (W → W)) (x : SignalStatus W) → distance fs x ≤ 0 → x ≡ exited
  ended_at fs first h = absurd (omega arith)
  ended_at fs (cleaning rest) h = absurd (omega arith)
  ended_at fs second h = absurd (omega arith)
  ended_at fs exited h = refl

  come_from_start :
      (d : ℕ) (events : List SignalEvent) (fs : List (W → W)) (w : W) (m : ℕ)
      → d ≤ 1
      → 2 ≤ d + arrivals events 0
      → length fs + 3 ≤ m + d
      → to_go (run_signals (replicate m goes_on) (run_signals events (setup_signal_handler fs w)))
        ≤ d
  unfolding IsCounted
  come_from_start d events fs w m small h k =
      let start = setup_signal_handler fs w in
      let s = run_signals events start in
      let v = run-IsCleaned events fs w start (begin-IsCleaned fs w) in
      let counted = run-IsCounted events 0 start (begin-IsCounted fs w) in
      come_to d m s.status s small refl
        (omega (
          arith,
          at_least (2 - d) (arrivals events 0) (s.chan + received s.status) (omega arith) counted
              (omega arith),
        ))
        (rw v.all_funs (omega (arith, distance-split fs s.status v.ran v.split)))

  -- Once a signal has arrived, as many steps of the goroutine as there are clean-up functions, and two
  -- more, bring it to its second receive or past it: the context is done, and every function has run,
  -- once and in the order in which they were added.
  pub signal_cleans :
      (events : List SignalEvent) (fs : List (W → W)) (w : W)
      → 1 ≤ arrivals events 0
      → let s = run_signals events (setup_signal_handler fs w) in
        let t = run_signals (replicate (length fs + 2) goes_on) s in
        (t.is_cancelled ≡ true) × (t.world ≡ after w fs)
  signal_cleans events fs w h =
      let start = setup_signal_handler fs w in
      let s = run_signals events start in
      let more = replicate (length fs + 2) goes_on in
      let t = run_signals more s in
      let v = run-IsCleaned more fs w s (run-IsCleaned events fs w start (begin-IsCleaned fs w)) in
      let near =
        come_from_start 1 events fs w (length fs + 2) (omega arith) (omega arith) (omega arith) in
      let done = v.cancelled ∙ over_at t.clean_funs t.status near in
      (done, cancelled-after fs w t v done)

  -- Once two signals have arrived, as many steps of the goroutine as there are clean-up functions, and
  -- three more, end the process.
  pub second_signal_ends :
      (events : List SignalEvent) (fs : List (W → W)) (w : W)
      → 2 ≤ arrivals events 0
      → let s = run_signals events (setup_signal_handler fs w) in
        (run_signals (replicate (length fs + 3) goes_on) s).status ≡ exited
  second_signal_ends events fs w h =
      let t =
        run_signals (replicate (length fs + 3) goes_on)
          (run_signals events (setup_signal_handler fs w)) in
      ended_at t.clean_funs t.status
        (come_from_start 0 events fs w (length fs + 3) (omega arith) (omega arith) (omega arith))
