-- ===== src/Lifecycle/Attempts.antt =====
-- What one attempt of the lifecycle controller does, and what a retry after a failed update does.
use nvidia_gpu_scheduler.Prelude.{
  ℕ, ◌+◌, ◌≡◌, refl, ap, inl, inr, Bool, Bool-cases, true, false, ◌||◌, [], ◌∷◌, ◌++◌, Option, none,
  some, String, ltb, str_eq, eq_iff, eq_refl, insert, lookup, lookup-insert, arith, if◌then◌else◌,
}
use nvidia_gpu_scheduler.Lifecycle.{
  Lease, NodeHealthData, Attempt, Poll, ensure_health, is_newer, observe, health_label, mark_status,
  update_gpu_node_status, is_stale, check_lease, attempt_with, attempt,
}

-- The health data that an attempt with an answer of the lease lister comes to,.
abbrev pub data_after : Attempt → Option Lease → Poll → NodeHealthData
data_after a l p = observe a.renew_now l (ensure_health a.first_now p.save_node_health)

-- When a renewal of the node's lease was seen last: now, if the lease that is observed is new.
abbrev pub seen : Attempt → Option Lease → NodeHealthData → ℕ
seen a none d = d.probe_timestamp
seen a (some l) d = if is_newer d.lease l then a.renew_now else d.probe_timestamp

-- The mark that an attempt is to leave: the last renewal was seen within the grace period.
abbrev pub due_label : ℕ → Attempt → Option Lease → Poll → String
due_label grace a l p =
    if ltb (seen a l (ensure_health a.first_now p.save_node_health) + grace) a.check_now
    then "False"
    else "True"

module _ (grace : ℕ) (period : String) where
  -- What updateGpuNodeStatus leaves: the mark, the calls, its result, and the rest as it was.
  abbrev pub Marked : String → Bool → Poll → Poll × Bool → Type 0
  Marked label is_updated p r =
      (r.0.gpunode.status.health ≡ label)
      × (r.0.sent
          ≡ (if str_eq p.gpunode.status.health label then p.sent else p.sent ++ r.0.gpunode ∷ []))
      × (r.1 ≡ (str_eq p.gpunode.status.health label || is_updated))
      × (r.0.saved_health_data_map ≡ p.saved_health_data_map)

  update_gpu_node_status_lem :
      (healthy : Bool) (a : Attempt) (msg : String) (p : Poll)
      → Marked (health_label healthy) a.is_updated p (update_gpu_node_status healthy a msg p)
  unfolding update_gpu_node_status mark_status
  update_gpu_node_status_lem true a msg p =
      elim (Bool-cases (str_eq p.gpunode.status.health "True")) [
        | inl old ↦ rw old (ground (arith, eq_iff p.gpunode.status.health "True"), refl, refl, refl)
        | inr new ↦ rw new (refl, refl, refl, refl)
      ]
  update_gpu_node_status_lem false a msg p =
      elim (Bool-cases (str_eq p.gpunode.status.health "False")) [
        | inl old ↦
            rw old (ground (arith, eq_iff p.gpunode.status.health "False"), refl, refl, refl)
        | inr new ↦ rw new (refl, refl, refl, refl)
      ]

  check_lease_lem :
      (a : Attempt) (d : NodeHealthData) (p : Poll) (b : Bool)
      → is_stale grace a d ≡ b
      → Marked (if b then "False" else "True") a.is_updated p (check_lease grace period a d p)
  unfolding check_lease
  check_lease_lem a d p true s = rw s (update_gpu_node_status_lem false a _ p)
  check_lease_lem a d p false s = rw s (update_gpu_node_status_lem true a _ p)

  is_stale-seen :
      (a : Attempt) (l : Option Lease) (d : NodeHealthData)
      → is_stale grace a (observe a.renew_now l d) ≡ ltb (seen a l d + grace) a.check_now
  unfolding is_stale observe
  is_stale-seen a none d = refl
  is_stale-seen a (some l) d = ground arith

  pub attempt_observed :
      (a : Attempt) (o : Option (Option Lease)) (p : Poll)
      → a.observed ≡ o
      → attempt grace period a p
        ≡ attempt_with grace period a o (ensure_health a.first_now p.save_node_health) p
  unfolding attempt
  attempt_observed a o p h =
      ap (λ x. attempt_with grace period a x (ensure_health a.first_now p.save_node_health) p) h

  -- An attempt for which the lease lister answers leaves its copy of the GpuNode marked "False" if
  -- more than the grace period has gone by since a renewal of the lease was seen, and else "True". It
  -- calls UpdateStatus, with that copy, exactly if the mark was another before; it ends the poll
  -- exactly if there was nothing to change or the call succeeded; and the controller keeps what it
  -- saw of the lease under the node's name.
  pub attempt_lem :
      (a : Attempt) (l : Option Lease) (p : Poll)
      → a.observed ≡ some l
      → let r = attempt grace period a p in
        (r.0.gpunode.status.health ≡ due_label grace a l p)
        × (r.0.sent ≡ (
            if str_eq p.gpunode.status.health (due_label grace a l p)
            then p.sent
            else p.sent ++ r.0.gpunode ∷ []))
        × (r.1 ≡ (str_eq p.gpunode.status.health (due_label grace a l p) || a.is_updated))
        × (lookup p.gpunode.name r.0.saved_health_data_map ≡ some (data_after a l p))
  unfolding attempt_with
  attempt_lem a l p h =
      let d = ensure_health a.first_now p.save_node_health in
      let d' = observe a.renew_now l d in
      let q = record p {
        save_node_health = some d';
        saved_health_data_map = insert p.gpunode.name d' p.saved_health_data_map;
      } in
      let (marked, calls, over, kept) = check_lease_lem a d' q _ (is_stale-seen a l d) in
      rw (attempt_observed a (some l) p h) (
        marked,
        calls,
        over,
        rw
            (
              kept,
              lookup-insert p.gpunode.name p.gpunode.name d' p.saved_health_data_map,
              eq_refl p.gpunode.name,
            )
            refl,
      )
