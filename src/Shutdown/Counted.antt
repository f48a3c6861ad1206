-- ===== src/Shutdown/Counted.antt =====
-- How many signals the handler has received, of those that have arrived.
use nvidia_gpu_scheduler.Prelude.{
  ℕ, ◌+◌, ◌-◌, ◌≤◌, ◌<◌, ◌≡◌, ◌⊎◌, refl, ap, inl, inr, Bool-cases, false, List, [], ◌∷◌, ltb, ◌==◌,
  arith,
}
use nvidia_gpu_scheduler.Shutdown.{
  SignalStatus, first, cleaning, second, exited, SignalHandler, signal_cap, setup_signal_handler,
  SignalEvent, arrives, goes_on, next_step, signal_step, run_signals,
}

abbrev pub arrived : SignalEvent → ℕ → ℕ
arrived arrives n = n + 1
arrived goes_on n = n

-- How many signals have arrived, after so many.
unfoldable pub arrivals : List SignalEvent → ℕ → ℕ
arrivals [] n = n
arrivals (e ∷ events) n = arrivals events (arrived e n)

-- Of n signals none is lost before the second.
abbrev Counted : ℕ → ℕ → Type 0
Counted n k = (k ≤ n) × ((n ≤ k) ⊎ (2 ≤ k))

Counted-less : (c r k n : ℕ) → 0 < c → r ≡ k → Counted n (c + r) → Counted n (c - 1 + (k + 1))
Counted-less c r k n h e (below, above) = (omega arith, ground arith)

Counted-more : (c r n : ℕ) → Counted n (c + r) → Counted (n + 1) (c + 1 + r)
Counted-more c r n (below, above) = (omega arith, ground arith)

Counted-full : (c r n : ℕ) → 2 ≤ c → Counted n (c + r) → Counted (n + 1) (c + r)
Counted-full c r n h (below, above) = (omega arith, ground arith)

not-ltb : (c : ℕ) → ltb c signal_cap ≡ false → 2 ≤ c
not-ltb c h = ground arith

pub eqb-pos : (c : ℕ) → (c == 0) ≡ false → 0 < c
eqb-pos c h = ground arith

pub pos-eqb : (c : ℕ) → 0 < c → (c == 0) ≡ false
pos-eqb c h = ground arith

pub not_before : (c r n : ℕ) → Counted n (c + r) → r ≤ n
not_before c r n (below, above) = omega arith

pub at_least : (m n k : ℕ) → m ≤ 2 → Counted n k → m ≤ n → m ≤ k
at_least m n k small (below, above) h = ground arith

module _ {W : Type 0} where
  -- How many signals the goroutine has received.
  abbrev pub received : SignalStatus W → ℕ
  received first = 0
  received (cleaning fs) = 1
  received second = 1
  received exited = 2

  unfoldable pub IsCounted : ℕ → SignalHandler W → Type 0
  IsCounted n s = Counted n (s.chan + received s.status)

  next_step-IsCounted :
      (x : SignalStatus W) (n : ℕ) (s : SignalHandler W)
      → s.status ≡ x
      → IsCounted n s
      → IsCounted n (next_step x s)
  unfolding next_step IsCounted
  next_step-IsCounted first n s e v = elim (Bool-cases (s.chan == 0)) [
    | inl h ↦ rw h v
    | inr h ↦
        rw h (Counted-less s.chan (received s.status) 0 n (eqb-pos s.chan h) (ap received e) v)
  ]
  next_step-IsCounted (cleaning []) n s e v = rw e at v
  next_step-IsCounted (cleaning (f ∷ fs)) n s e v = rw e at v
  next_step-IsCounted second n s e v = elim (Bool-cases (s.chan == 0)) [
    | inl h ↦ rw h v
    | inr h ↦
        rw h (Counted-less s.chan (received s.status) 1 n (eqb-pos s.chan h) (ap received e) v)
  ]
  next_step-IsCounted exited n s e v = v

  step-IsCounted :
      (ev : SignalEvent) (n : ℕ) (s : SignalHandler W)
      → IsCounted n s
      → IsCounted (arrived ev n) (signal_step ev s)
  unfolding signal_step IsCounted
  step-IsCounted arrives n s v = elim (Bool-cases (ltb s.chan signal_cap)) [
    | inl e ↦ rw e (Counted-more s.chan (received s.status) n v)
    | inr e ↦ rw e (Counted-full s.chan (received s.status) n (not-ltb s.chan e) v)
  ]
  step-IsCounted goes_on n s v = unfold IsCounted in next_step-IsCounted s.status n s refl v

  pub run-IsCounted :
      (events : List SignalEvent) (n : ℕ) (s : SignalHandler W)
      → IsCounted n s
      → IsCounted (arrivals events n) (run_signals events s)
  unfolding run_signals arrivals
  run-IsCounted [] n s v = v
  run-IsCounted (e ∷ events) n s v =
      run-IsCounted events (arrived e n) (signal_step e s) (step-IsCounted e n s v)

  pub begin-IsCounted : (fs : List (W → W)) (w : W) → IsCounted 0 (setup_signal_handler fs w)
  unfolding IsCounted
  begin-IsCounted fs w = (omega arith, inl (omega arith))
