-- ===== src/Lifecycle/Rounds.antt =====
-- What a poll of the lifecycle controller comes to, and a round over the nodes.
use nvidia_gpu_scheduler.Prelude.{
  not, ◌&&◌, ℕ, ◌≡◌, ◌↔◌, refl, ◌∙◌, inl, inr, Bool, Bool-cases, true, false, ◌||◌, List, [], ◌∷◌,
  ◌++◌, map, Option, none, some, String, str_eq, eq_refl, has_text, insert, lookup, lookup-insert,
  arith,
}
use nvidia_gpu_scheduler.Api.{GpuNode}
use nvidia_gpu_scheduler.Lifecycle.{
  monitor_rounds, run_controller, Lease, NodeHealthData, Attempt, Poll, Monitor,
  update_gpu_node_status, mark_status, check_lease, attempt_with, attempt, poll, observe,
  ensure_health, is_stale, begin_poll, end_poll, monitor_nodes, monitor_gpu_node_health,
}
use nvidia_gpu_scheduler.Lifecycle.Attempts.{due_label, attempt_observed, attempt_lem}

abbrev pub NoLease : List Attempt → Type 0
NoLease [] = Unit {0}
NoLease (a ∷ runs) = (a.observed ≡ none) × NoLease runs

neither : {x y z : Bool} → z ≡ (x || y) → x ≡ false → y ≡ false → z ≡ false
neither e p q = ground arith

-- The names of the nodes that List returns.
abbrev pub listed_names : Option (List (GpuNode × List Attempt)) → List String
listed_names none = []
listed_names (some ns) = map (λ x. x.0.name) ns

module _ (grace : ℕ) (period : String) where
  -- A poll in which every Get of the lease fails times out and changes nothing: the GpuNode keeps
  -- its mark, no call is made, and no health data is kept, however much time has gone by.
  pub poll_without_lease :
      (runs : List Attempt) (p : Poll)
      → NoLease runs
      → let r = poll grace period runs p in
        (r.1 ≡ false)
        × (r.0.gpunode ≡ p.gpunode)
        × (r.0.sent ≡ p.sent)
        × (r.0.saved_health_data_map ≡ p.saved_health_data_map)
  unfolding poll attempt_with
  poll_without_lease [] p h = (refl, refl, refl, refl)
  poll_without_lease (a ∷ runs) p h =
      rw (attempt_observed grace period a none p h.0) (poll_without_lease runs _ h.1)

  -- Where UpdateStatus fails in an attempt, the next attempt does not try it again if its verdict is
  -- the same: it finds the mark in its own copy of the GpuNode, and the poll reports success after
  -- the one call that failed.
  pub poll_after_failed_update :
      (a b : Attempt) (runs : List Attempt) (l l' : Option Lease) (p : Poll)
      → a.observed ≡ some l
      → b.observed ≡ some l'
      → a.is_updated ≡ false
      → str_eq p.gpunode.status.health (due_label grace a l p) ≡ false
      → due_label grace b l' (attempt grace period a p).0 ≡ due_label grace a l p
      → let r = poll grace period (a ∷ b ∷ runs) p in
        (r.1 ≡ true) × (r.0.sent ≡ p.sent ++ (attempt grace period a p).0.gpunode ∷ [])
  unfolding poll
  poll_after_failed_update a b runs l l' p ha hb failed other same =
      let (marked, calls, over, kept) = attempt_lem grace period a l p ha in
      let p1 = (attempt grace period a p).0 in
      let (marked', calls', over', kept') = attempt_lem grace period b l' p1 hb in
      let again : (attempt grace period a p).1 ≡ false = neither over other failed in
      let once : p1.sent ≡ p.sent ++ p1.gpunode ∷ [] = rw other at calls in
      let old : str_eq p1.gpunode.status.health (due_label grace b l' p1) ≡ true =
        rw (marked, same) (eq_refl (due_label grace a l p)) in
      let done : (attempt grace period b p1).1 ≡ true = rw old at over' in
      let silent : (attempt grace period b p1).0.sent ≡ p1.sent = rw old at calls' in
      rw (again, done) (refl, silent ∙ once)

  name_kept :
      (healthy : Bool) (a : Attempt) (msg : String) (p : Poll)
      → (update_gpu_node_status healthy a msg p).0.gpunode.name ≡ p.gpunode.name
  unfolding update_gpu_node_status mark_status
  name_kept true a msg p = ground arith
  name_kept false a msg p = ground arith

  map_kept :
      (healthy : Bool) (a : Attempt) (msg : String) (p : Poll)
      → (update_gpu_node_status healthy a msg p).0.saved_health_data_map ≡ p.saved_health_data_map
  unfolding update_gpu_node_status
  map_kept healthy a msg p = ground arith

  check_lease_kept :
      (a : Attempt) (d : NodeHealthData) (p : Poll)
      → let q = (check_lease grace period a d p).0 in
        (q.saved_health_data_map ≡ p.saved_health_data_map) × (q.gpunode.name ≡ p.gpunode.name)
  unfolding check_lease
  check_lease_kept a d p = elim (Bool-cases (is_stale grace a d)) [
    | inl s ↦ rw s (map_kept false a _ p, name_kept false a _ p)
    | inr s ↦ rw s (map_kept true a _ p, name_kept true a _ p)
  ]

  -- Only the entry of the node's own name changes.
  abbrev OthersKept : String → Poll → Poll → Type 0
  OthersKept k p q =
      (lookup k q.saved_health_data_map ≡ lookup k p.saved_health_data_map)
      × (q.gpunode.name ≡ p.gpunode.name)

  attempt_with_others :
      (a : Attempt) (o : Option (Option Lease)) (d : NodeHealthData) (p : Poll) (k : String)
      → str_eq p.gpunode.name k ≡ false
      → OthersKept k p (attempt_with grace period a o d p).0
  unfolding attempt_with
  attempt_with_others a none d p k h = (refl, refl)
  attempt_with_others a (some l) d p k h =
      let d' = observe a.renew_now l d in
      let (m, n) = check_lease_kept a d' (record p {
        save_node_health = some d';
        saved_health_data_map = insert p.gpunode.name d' p.saved_health_data_map;
      }) in
      (rw (m, lookup-insert p.gpunode.name k d' p.saved_health_data_map, h) refl, n)

  poll_others :
      (runs : List Attempt) (p : Poll) (k : String)
      → str_eq p.gpunode.name k ≡ false
      → OthersKept k p (poll grace period runs p).0
  unfolding poll attempt
  poll_others [] p k h = (refl, refl)
  poll_others (a ∷ runs) p k h =
      let r = attempt grace period a p in
      let (m, n) : OthersKept k p r.0 =
        attempt_with_others a a.observed (ensure_health a.first_now p.save_node_health) p k h in
      let (m', n') = poll_others runs r.0 k (rw n h) in
      elim (Bool-cases r.1) [ inl over ↦ rw over (m, n) | inr again ↦ rw again (m' ∙ m, n' ∙ n) ]

  monitor_nodes_others :
      (ns : List (GpuNode × List Attempt)) (m : Monitor) (k : String)
      → has_text (map (λ x. x.0.name) ns) k ≡ false
      → lookup k (monitor_nodes grace period ns m).saved ≡ lookup k m.saved
  unfolding monitor_nodes begin_poll
  monitor_nodes_others [] m k h = refl
  monitor_nodes_others ((n, runs) ∷ ns) m k h =
      let (here, name) = poll_others runs (begin_poll n m) k (ground arith) in
      monitor_nodes_others ns (end_poll (poll grace period runs (begin_poll n m)).0) k
        (ground arith)
      ∙ here

  -- A round of the monitor leaves the health data of every node that List does not name as it was,
  -- and so of all nodes where List fails; it returns an error exactly where List fails.
  pub monitor_gpu_node_health_lem :
      (listed : Option (List (GpuNode × List Attempt))) (m : Monitor) (k : String)
      → has_text (listed_names listed) k ≡ false
      → let r = monitor_gpu_node_health grace period listed m in
        ((r.1 ≡ false) ↔ (listed ≡ none)) × (lookup k r.0.saved ≡ lookup k m.saved)
  unfolding monitor_gpu_node_health
  monitor_gpu_node_health_lem none m k h = ((λ e. refl, λ e. refl), refl)
  monitor_gpu_node_health_lem (some ns) m k h = ((λ e. cc, λ e. cc), monitor_nodes_others ns m k h)

  -- No round's list names the node.
  abbrev pub never_listed : List (Option (List (GpuNode × List Attempt))) → String → Bool
  never_listed [] k = true
  never_listed (listed ∷ rounds) k = not (has_text (listed_names listed) k) && never_listed rounds k

  rest_true : (a b : Bool) → (not a && b) ≡ true → b ≡ true
  rest_true a b h = ground arith

  head_false : (a b : Bool) → (not a && b) ≡ true → a ≡ false
  head_false a b h = ground arith

  monitor_rounds_others :
      (rounds : List (Option (List (GpuNode × List Attempt)))) (m : Monitor) (k : String)
      → never_listed rounds k ≡ true
      → lookup k (monitor_rounds grace period rounds m).saved ≡ lookup k m.saved
  unfolding monitor_rounds
  monitor_rounds_others [] m k h = refl
  monitor_rounds_others (listed ∷ rounds) m k h =
      monitor_rounds_others rounds (monitor_gpu_node_health grace period listed m).0 k
        (rest_true (has_text (listed_names listed) k) (never_listed rounds k) h)
      ∙ (monitor_gpu_node_health_lem listed m k
          (head_false (has_text (listed_names listed) k) (never_listed rounds k) h)).1

  -- A controller whose caches are synced keeps, over any rounds, the health data of every node that
  -- no list of them names, and so of all nodes while List fails.
  pub run_controller-saved :
      (rounds : List (Option (List (GpuNode × List Attempt)))) (m : Monitor) (k : String)
      → never_listed rounds k ≡ true
      → (t : Monitor) × (run_controller grace period true rounds m ≡ some t)
        × (lookup k t.saved ≡ lookup k m.saved)
  unfolding run_controller
  run_controller-saved rounds m k h =
      (monitor_rounds grace period rounds m, refl, monitor_rounds_others rounds m k h)
