-- ===== src/PodReport/Jobs.antt =====
-- The jobs that a round of updatePodResourceFunc starts.
use mathlib.Core.List.{append-nil, append_assoc}
use nvidia_gpu_scheduler.Prelude.{
  ◌≡◌, refl, sym, ap, ◌∙◌, Bool, true, false, not, List, [], ◌∷◌, ◌++◌, String, Map, lookup, insert,
  if◌then◌else◌,
}
use nvidia_gpu_scheduler.Api.{GpuInfo}
use nvidia_gpu_scheduler.ModelName.{metadata_to_name}
use nvidia_gpu_scheduler.Report.{PodResources}
use nvidia_gpu_scheduler.PodReport.{
  PodResourcesDetail, fileter_pod_resource, Job, produce, clean, Sync, podidx, is_same, sync_new,
  exist, start_unless, sync_old, update_pod_resource_func,
}

-- The old pods that are there no more.
abbrev pub cleaned : Map PodResources → Map PodResources → List Job
cleaned new [] = []
cleaned new ((k, pr) ∷ old) =
    (if exist (lookup (podidx pr) new)
      then []
      else clean (metadata_to_name pr.namespace pr.name) ∷ [])
    ++ cleaned new old

abbrev pub is_empty : List Job → Bool
is_empty [] = true
is_empty (j ∷ js) = false

-- The flag tells whether there are jobs.
abbrev Flagged : Sync → Type 0
Flagged u = u.changed ≡ not (is_empty u.jobs)

is_empty-snoc : (js : List Job) (j : Job) → is_empty (js ++ j ∷ []) ≡ false
is_empty-snoc [] j = refl
is_empty-snoc (i ∷ js) j = refl

start_unless_lem :
    (b : Bool) (job : Job) (u : Sync)
    → Flagged u
    → ((start_unless b job u).jobs ≡ u.jobs ++ (if b then [] else job ∷ []))
      × Flagged (start_unless b job u)
      × ((start_unless b job u).prmap_new ≡ u.prmap_new)
unfolding start_unless
start_unless_lem true job u f = (sym (append-nil u.jobs), f, refl)
start_unless_lem false job u f = (refl, sym (ap not (is_empty-snoc u.jobs job)), refl)

sync_old_lem :
    (old : Map PodResources) (u : Sync)
    → Flagged u
    → ((sync_old old u).jobs ≡ u.jobs ++ cleaned u.prmap_new old)
      × Flagged (sync_old old u)
      × ((sync_old old u).prmap_new ≡ u.prmap_new)
unfolding sync_old
sync_old_lem [] u f = (sym (append-nil u.jobs), f, refl)
sync_old_lem ((k, pr) ∷ old) u f =
    let b = exist (lookup (podidx pr) u.prmap_new) in
    let job = clean (metadata_to_name pr.namespace pr.name) in
    let (js, g, m) = start_unless_lem b job u f in
    let (ks, h, n) = sync_old_lem old (start_unless b job u) g in
    (
      ks
          ∙ ap (λ x. (start_unless b job u).jobs ++ cleaned x old) m
          ∙ ap (λ x. x ++ cleaned u.prmap_new old) js
          ∙ append_assoc u.jobs (if b then [] else job ∷ []) (cleaned u.prmap_new old),
      h,
      n ∙ m,
    )

module _ (deep_equal : PodResources → PodResources → Bool) where
  -- The pods that are new or another than before.
  abbrev pub produced : Map PodResources → List PodResourcesDetail → List Job
  produced old [] = []
  produced old (prd ∷ prds) =
      (if is_same deep_equal (lookup (podidx prd.pod_resources) old) prd.pod_resources
        then []
        else produce prd ∷ [])
      ++ produced old prds

  sync_new_lem :
      (old : Map PodResources) (prds : List PodResourcesDetail) (u : Sync)
      → Flagged u
      → ((sync_new deep_equal old prds u).jobs ≡ u.jobs ++ produced old prds)
        × Flagged (sync_new deep_equal old prds u)
  unfolding sync_new
  sync_new_lem old [] u f = (sym (append-nil u.jobs), f)
  sync_new_lem old (prd ∷ prds) u f =
      let pr = prd.pod_resources in
      let b = is_same deep_equal (lookup (podidx pr) old) pr in
      let v = record u { prmap_new = insert (podidx pr) pr u.prmap_new } in
      let (js, g, m) = start_unless_lem b (produce prd) v f in
      let (ks, h) = sync_new_lem old prds (start_unless b (produce prd) v) g in
      (
        ks
            ∙ ap (λ x. x ++ produced old prds) js
            ∙ append_assoc u.jobs (if b then [] else produce prd ∷ []) (produced old prds),
        h,
      )

  -- A round of updatePodResourceFunc starts a production for exactly the gpu pods that are not the
  -- same as in the round before, in the order of the kubelet's answer, and then a clean-up for
  -- exactly the pods of the round before that are gone; it reports a change exactly if it starts
  -- something.
  pub update_pod_resource_func_lem :
      (info : String → GpuInfo) (prlist : List PodResources) (old : Map PodResources)
      → let u = update_pod_resource_func deep_equal info prlist old in
        (u.jobs ≡ produced old (fileter_pod_resource info prlist) ++ cleaned u.prmap_new old)
        × (u.changed ≡ not (is_empty u.jobs))
  unfolding update_pod_resource_func
  update_pod_resource_func_lem info prlist old =
      let prds = fileter_pod_resource info prlist in
      let u =
        sync_new deep_equal old prds (record { prmap_new = []; jobs = []; changed = false }) in
      let (js, f) = sync_new_lem old prds _ refl in
      let (ks, g, m) = sync_old_lem old u f in
      (rw m (ks ∙ ap (λ x. x ++ cleaned u.prmap_new old) js), g)
