-- ===== src/DsLoop/Turns.antt =====
-- How the loop comes to a halt, and what stays as it is until then.
use nvidia_gpu_scheduler.Prelude.{
  ℕ, zero, suc, ◌-◌, ◌+◌, ◌≤◌, ◌<◌, ◌≡◌, refl, ◌⊎◌, ap, ◌∙◌, inl, inr, Bool, Bool-cases, true,
  false, List, [], ◌∷◌, ◌++◌, Option, none, some, String, Map, ltb, ltb→lt, ◌==◌, replicate, arith,
  lt→ltb, if◌then◌else◌,
}
use nvidia_gpu_scheduler.Sets.{StringSet}
use nvidia_gpu_scheduler.Api.{GpuInfo}
use nvidia_gpu_scheduler.Report.{PodResources, GpuNodes}
use nvidia_gpu_scheduler.PodReport.{Sync, update_pod_resource_func}
use nvidia_gpu_scheduler.PodStore.{GpuPods}
use nvidia_gpu_scheduler.DsLoop.{
  relist_cap, LoopStatus, running, stopped, blocked, Turn, stop, gpu_info, remove, go_on, relist,
  Loop, on_gpu_info, on_remove, on_go_on, on_relist, sync_pods, finish_sync, tell_sync, old_pods,
  produce_node, clean_once, take_turn, loop_step, run_loop,
}

module _ (S : StringSet) {W : Type 0} (nodes : GpuNodes W) (pods : GpuPods W)
    (deep_equal : PodResources → PodResources → Bool) (info : String → GpuInfo) where
  lt-suc : {n m : ℕ} → n < m → n + 1 ≤ m
  lt-suc h = omega arith

  pos→eqb : (n : ℕ) → 0 < n → (n == 0) ≡ false
  pos→eqb n h = ground arith

  step_running :
      (t : Turn S) (x : LoopStatus) (s : Loop S W)
      → x ≡ running
      → loop_step S nodes pods deep_equal info t x s ≡ take_turn S nodes pods deep_equal info t s
  unfolding loop_step
  step_running t x s h = rw h refl

  step_halted :
      (t : Turn S) (x : LoopStatus) (s : Loop S W)
      → (x ≡ stopped) ⊎ (x ≡ blocked)
      → loop_step S nodes pods deep_equal info t x s ≡ s
  unfolding loop_step
  step_halted t x s (inl h) = rw h refl
  step_halted t x s (inr h) = rw h refl

  -- A loop that has been left or waits for itself takes no turn.
  pub run_halted :
      (turns : List (Turn S)) (s : Loop S W)
      → (s.status ≡ stopped) ⊎ (s.status ≡ blocked)
      → run_loop S nodes pods deep_equal info turns s ≡ s
  unfolding run_loop
  run_halted [] s h = refl
  run_halted (t ∷ turns) s h =
      ap (run_loop S nodes pods deep_equal info turns) (step_halted t s.status s h)
      ∙ run_halted turns s h

  on_go_on_full :
      (s : Loop S W)
      → s.relist_chan ≡ relist_cap
      → on_go_on S nodes pods deep_equal info s
        ≡ record s { relist_chan = relist_cap; status = blocked }
  unfolding on_go_on
  on_go_on_full s e = rw e refl

  on_go_on_free :
      (s : Loop S W)
      → s.relist_chan < relist_cap
      → on_go_on S nodes pods deep_equal info s ≡ record s { relist_chan = s.relist_chan + 1 }
  unfolding on_go_on
  on_go_on_free s h = rw (lt→ltb s.relist_chan relist_cap h) refl

  -- A signal is one turn.
  run_go_on :
      (turns : List (Turn S)) (s : Loop S W)
      → s.status ≡ running
      → run_loop S nodes pods deep_equal info (go_on ∷ turns) s
        ≡ run_loop S nodes pods deep_equal info turns (on_go_on S nodes pods deep_equal info s)
  unfolding run_loop take_turn
  run_go_on turns s h =
      ap (run_loop S nodes pods deep_equal info turns) (step_running go_on s.status s h)

  -- With k places left in relistChan, the k + 1 signals of goonChan that come before the loop
  -- receives from relistChan make the loop wait for itself: no turn after them is taken.
  pub go_on_deadlock :
      (k : ℕ) (turns : List (Turn S)) (s : Loop S W)
      → s.status ≡ running
      → s.relist_chan + k ≡ relist_cap
      → run_loop S nodes pods deep_equal info (replicate (suc k) go_on ++ turns) s
        ≡ record s { relist_chan = relist_cap; status = blocked }
  go_on_deadlock zero turns s h e =
      run_go_on turns s h
      ∙ ap (run_loop S nodes pods deep_equal info turns) (on_go_on_full s (omega arith))
      ∙ run_halted turns (record s { relist_chan = relist_cap; status = blocked }) (inr refl)
  go_on_deadlock (suc k) turns s h e =
      run_go_on (replicate (suc k) go_on ++ turns) s h
      ∙ ap (run_loop S nodes pods deep_equal info (replicate (suc k) go_on ++ turns))
          (on_go_on_free s (omega arith))
      ∙ go_on_deadlock k turns (record s { relist_chan = s.relist_chan + 1 }) h (omega arith)

  -- One round whose List fails is the last: nothing that comes after it is taken.
  pub list_fails :
      (times : List ℕ) (turns : List (Turn S)) (s : Loop S W)
      → s.status ≡ running
      → 0 < s.relist_chan
      → run_loop S nodes pods deep_equal info (relist times none ∷ turns) s
        ≡ record s { relist_chan = s.relist_chan - 1; status = stopped }
  unfolding run_loop take_turn on_relist
  list_fails times turns s h pos =
      ap (run_loop S nodes pods deep_equal info turns)
        (step_running (relist times none) s.status s h ∙ rw (pos→eqb s.relist_chan pos) refl)
      ∙ run_halted turns (record s { relist_chan = s.relist_chan - 1; status = stopped }) (inl refl)

  chan_if :
      (b : Bool) (x y : Loop S W) {n : ℕ}
      → x.relist_chan ≡ n
      → y.relist_chan ≡ n
      → (if b then x else y).relist_chan ≡ n
  chan_if true x y p q = p
  chan_if false x y p q = q

  clean_once_chan :
      (new : Map PodResources) (s : Loop S W)
      → (clean_once S nodes pods deep_equal info new s).relist_chan ≡ s.relist_chan
  unfolding clean_once
  clean_once_chan new s = chan_if s.is_cleaned _ _ refl refl

  finish_sync_chan :
      (times : List ℕ) (u : Sync) (s : Loop S W)
      → (finish_sync S nodes pods deep_equal info times u s).relist_chan ≡ s.relist_chan
  unfolding finish_sync
  finish_sync_chan times u s =
      let told = tell_sync S nodes pods deep_equal info u s in
      let made = produce_node S nodes pods deep_equal info times told in
      clean_once_chan u.prmap_new (if u.changed then made else told)
      ∙ chan_if u.changed made told refl refl

  sync_pods_chan :
      (times : List ℕ) (prlist : List PodResources) (s : Loop S W)
      → (sync_pods S nodes pods deep_equal info times prlist s).relist_chan ≡ s.relist_chan
  unfolding sync_pods
  sync_pods_chan times prlist s =
      finish_sync_chan times
        (update_pod_resource_func deep_equal info prlist
          (old_pods S nodes pods deep_equal info s.node.podresources_last))
        s

  go_on_bound :
      (s : Loop S W)
      → s.relist_chan ≤ relist_cap
      → (on_go_on S nodes pods deep_equal info s).relist_chan ≤ relist_cap
  unfolding on_go_on
  go_on_bound s h = elim (Bool-cases (ltb s.relist_chan relist_cap)) [
    | inl e ↦ rw e (lt-suc (ltb→lt s.relist_chan relist_cap e))
    | inr e ↦ rw e h
  ]

  relist_bound :
      (times : List ℕ) (answer : Option (List PodResources)) (s : Loop S W)
      → s.relist_chan ≤ relist_cap
      → (on_relist S nodes pods deep_equal info times answer s).relist_chan ≤ relist_cap
  unfolding on_relist
  relist_bound times none s h = h
  relist_bound times (some l) s h = rw (sync_pods_chan times l s) h

  bound_if :
      (b : Bool) (x y : Loop S W) {n : ℕ}
      → x.relist_chan ≤ n
      → y.relist_chan ≤ n
      → (if b then x else y).relist_chan ≤ n
  bound_if true x y p q = p
  bound_if false x y p q = q

  take_turn_le :
      (t : Turn S) (s : Loop S W)
      → s.relist_chan ≤ relist_cap
      → (take_turn S nodes pods deep_equal info t s).relist_chan ≤ relist_cap
  unfolding take_turn on_gpu_info on_remove
  take_turn_le stop s h = h
  take_turn_le (gpu_info times ngi) s h = h
  take_turn_le (remove times namespace name) s h = h
  take_turn_le go_on s h = go_on_bound s h
  take_turn_le (relist times answer) s h =
      bound_if (s.relist_chan == 0) _ _ h (relist_bound times answer _ (omega arith))

  step_bound :
      (t : Turn S) (x : LoopStatus) (s : Loop S W)
      → s.relist_chan ≤ relist_cap
      → (loop_step S nodes pods deep_equal info t x s).relist_chan ≤ relist_cap
  unfolding loop_step
  step_bound t running s h = take_turn_le t s h
  step_bound t stopped s h = h
  step_bound t blocked s h = h

  -- relistChan never holds more than its capacity.
  pub run_bound :
      (turns : List (Turn S)) (s : Loop S W)
      → s.relist_chan ≤ relist_cap
      → (run_loop S nodes pods deep_equal info turns s).relist_chan ≤ relist_cap
  unfolding run_loop
  run_bound [] s h = h
  run_bound (t ∷ turns) s h =
      run_bound turns (loop_step S nodes pods deep_equal info t s.status s)
        (step_bound t s.status s h)
