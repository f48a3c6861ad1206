-- ===== src/Shutdown/Twice.antt =====
-- What a run of the signal handler has done.
use mathlib.Core.List.{append-nil, append_assoc, foldl}
use nvidia_gpu_scheduler.Prelude.{
  ◌≤◌, ◌≡◌, refl, sym, ap, ◌∙◌, inl, inr, Bool, Bool-cases, true, false, List, [], ◌∷◌, ◌++◌, ltb,
  ◌==◌, arith,
}
use nvidia_gpu_scheduler.Shutdown.{
  SignalStatus, first, cleaning, second, exited, SignalHandler, signal_cap, setup_signal_handler,
  SignalEvent, arrives, goes_on, next_step, signal_step, run_signals,
}
use nvidia_gpu_scheduler.Shutdown.Counted.{
  arrivals, received, IsCounted, run-IsCounted, begin-IsCounted, not_before,
}

module _ {W : Type 0} where
  -- The clean-up functions that are still to run, of all of them.
  abbrev pub left_of : List (W → W) → SignalStatus W → List (W → W)
  left_of fs first = fs
  left_of fs (cleaning rest) = rest
  left_of fs second = []
  left_of fs exited = []

  abbrev pub is_over : SignalStatus W → Bool
  is_over first = false
  is_over (cleaning fs) = false
  is_over second = true
  is_over exited = true

  -- The world after some functions, from the first to the last.
  abbrev pub after : W → List (W → W) → W
  after w fs = foldl (λ x f. f x) w fs

  -- The functions that have run, each once and in their order, and those that are left are all of
  -- them; the context is done if and only if the loop over them is over.
  pub record IsCleaned (fs : List (W → W)) (w : W) (s : SignalHandler W) : Type 0 where
    pub all_funs : s.clean_funs ≡ fs
    pub ran : List (W → W)
    pub split : ran ++ left_of fs s.status ≡ fs
    pub cleaned : s.world ≡ after w ran
    pub cancelled : s.is_cancelled ≡ is_over s.status

  after-snoc : (w : W) (fs : List (W → W)) (f : W → W) → after w (fs ++ f ∷ []) ≡ f (after w fs)
  after-snoc w [] f = refl
  after-snoc w (g ∷ fs) f = after-snoc (g w) fs f

  next_step-IsCleaned :
      (x : SignalStatus W) (fs : List (W → W)) (w : W) (s : SignalHandler W)
      → s.status ≡ x
      → IsCleaned fs w s
      → IsCleaned fs w (next_step x s)
  unfolding next_step
  next_step-IsCleaned first fs w s e v = elim (Bool-cases (s.chan == 0)) [
    | inl h ↦ rw h v
    | inr h ↦ rw h (record {
      all_funs = v.all_funs;
      ran = v.ran;
      split = ap (λ l. v.ran ++ l) v.all_funs ∙ ap (λ y. v.ran ++ left_of fs y) (sym e) ∙ v.split;
      cleaned = v.cleaned;
      cancelled = v.cancelled ∙ ap is_over e;
    })
  ]
  next_step-IsCleaned (cleaning []) fs w s e v = record {
    all_funs = v.all_funs;
    ran = v.ran;
    split = ap (λ y. v.ran ++ left_of fs y) (sym e) ∙ v.split;
    cleaned = v.cleaned;
    cancelled = refl;
  }
  next_step-IsCleaned (cleaning (f ∷ rest)) fs w s e v = record {
    all_funs = v.all_funs;
    ran = v.ran ++ f ∷ [];
    split = append_assoc v.ran (f ∷ []) rest ∙ ap (λ y. v.ran ++ left_of fs y) (sym e) ∙ v.split;
    cleaned = ap f v.cleaned ∙ sym (after-snoc w v.ran f);
    cancelled = v.cancelled ∙ ap is_over e;
  }
  next_step-IsCleaned second fs w s e v = elim (Bool-cases (s.chan == 0)) [
    | inl h ↦ rw h v
    | inr h ↦ rw h (record {
      all_funs = v.all_funs;
      ran = v.ran;
      split = ap (λ y. v.ran ++ left_of fs y) (sym e) ∙ v.split;
      cleaned = v.cleaned;
      cancelled = v.cancelled ∙ ap is_over e;
    })
  ]
  next_step-IsCleaned exited fs w s e v = v

  step-IsCleaned :
      (ev : SignalEvent) (fs : List (W → W)) (w : W) (s : SignalHandler W)
      → IsCleaned fs w s
      → IsCleaned fs w (signal_step ev s)
  unfolding signal_step
  step-IsCleaned arrives fs w s v = elim (Bool-cases (ltb s.chan signal_cap)) [
    | inl e ↦ rw e (record {
      all_funs = v.all_funs;
      ran = v.ran;
      split = v.split;
      cleaned = v.cleaned;
      cancelled = v.cancelled;
    })
    | inr e ↦ rw e v
  ]
  step-IsCleaned goes_on fs w s v = next_step-IsCleaned s.status fs w s refl v

  pub run-IsCleaned :
      (events : List SignalEvent) (fs : List (W → W)) (w : W) (s : SignalHandler W)
      → IsCleaned fs w s
      → IsCleaned fs w (run_signals events s)
  unfolding run_signals
  run-IsCleaned [] fs w s v = v
  run-IsCleaned (e ∷ events) fs w s v =
      run-IsCleaned events fs w (signal_step e s) (step-IsCleaned e fs w s v)

  pub begin-IsCleaned : (fs : List (W → W)) (w : W) → IsCleaned fs w (setup_signal_handler fs w)
  begin-IsCleaned fs w = record {
    all_funs = refl;
    ran = [];
    split = refl;
    cleaned = refl;
    cancelled = refl;
  }

  -- Whatever the order in which signals arrive and the goroutine goes on: the clean-up functions that
  -- have run are a front part of those that were added, each has run once and in their order, and the
  -- rest is what the goroutine has left to run, which is all of them before it receives the first
  -- signal; the context is done if and only if the goroutine has gone on from the last of them; and
  -- the goroutine has received no more signals than have arrived, two where the process has ended.
  pub run_signals_lem :
      (events : List SignalEvent) (fs : List (W → W)) (w : W)
      → let s = run_signals events (setup_signal_handler fs w) in
        IsCleaned fs w s × (received s.status ≤ arrivals events 0)
  unfolding IsCounted
  run_signals_lem events fs w =
      let start = setup_signal_handler fs w in
      let s = run_signals events start in
      (
        run-IsCleaned events fs w start (begin-IsCleaned fs w),
        not_before s.chan (received s.status) (arrivals events 0)
            (run-IsCounted events 0 start (begin-IsCounted fs w)),
      )

  -- Once the context is done, every function has run, once and in order.
  pub cancelled-after :
      (fs : List (W → W)) (w : W) (s : SignalHandler W)
      → IsCleaned fs w s
      → s.is_cancelled ≡ true
      → s.world ≡ after w fs
  cancelled-after fs w s v h =
      v.cleaned
      ∙ ap (after w) (
          sym (append-nil v.ran)
          ∙ ap (λ l. v.ran ++ l) (sym (none_left s.status (sym v.cancelled ∙ h)))
          ∙ v.split)
    where
      none_left : (x : SignalStatus W) → is_over x ≡ true → left_of fs x ≡ []
      none_left first e = absurd (ground arith)
      none_left (cleaning rest) e = absurd (ground arith)
      none_left second e = refl
      none_left exited e = refl
