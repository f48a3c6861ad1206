-- ===== src/PodReport/Unchanged.antt =====
-- A round over the pods that reports no change leaves the busy devices as they were.
use nvidia_gpu_scheduler.Prelude.{
  ◌≡◌, refl, sym, ap, ◌∙◌, inl, inr, Bool, Bool-cases, true, false, not, List, [], ◌∷◌, ◌++◌,
  Option, none, some, String, str_eq, eq_iff, Map, lookup, insert, lookup-insert, arith,
  if◌then◌else◌,
}
use nvidia_gpu_scheduler.Api.{GpuInfo}
use nvidia_gpu_scheduler.ModelName.{metadata_to_name}
use nvidia_gpu_scheduler.Report.{PodResources}
use nvidia_gpu_scheduler.Report.Content.{some_container, is_busy}
use nvidia_gpu_scheduler.PodReport.{
  PodResourcesDetail, fileter_pod_resource, Job, produce, clean, Sync, podidx, is_same, sync_new,
  exist, start_unless, sync_old, update_pod_resource_func,
}
use nvidia_gpu_scheduler.PodReport.Jobs.{cleaned, produced, is_empty, update_pod_resource_func_lem}
use nvidia_gpu_scheduler.PodReport.Keyed.{
  IsKeyed, insert-IsKeyed, find_busy, busy_of, none_some, if_true, if_false, some_inj,
}

-- What the new map has under a key, the old map has under it.
FromOld : Map PodResources → Map PodResources → Type 0
FromOld old new = (k : String) (pr : PodResources) → lookup k new ≡ some pr → lookup k old ≡ some pr

insert-FromOld :
    (old new : Map PodResources) (k : String) (pr : PodResources)
    → lookup k old ≡ some pr
    → FromOld old new
    → FromOld old (insert k pr new)
unfolding FromOld
insert-FromOld old new k pr h f j q e = elim (Bool-cases (str_eq k j)) [
  | inl same ↦
      ap (λ x. lookup x old) (sym ((eq_iff k j).0 same))
      ∙ h
      ∙ sym (if_true (some pr) (lookup j new) same)
      ∙ sym (lookup-insert k j pr new)
      ∙ e
  | inr other ↦
      f j q (sym (if_false (some pr) (lookup j new) other) ∙ sym (lookup-insert k j pr new) ∙ e)
]

app_nil : {xs ys : List Job} → xs ++ ys ≡ [] → (xs ≡ []) × (ys ≡ [])
app_nil {xs = []} h = (refl, h)
app_nil {xs = x ∷ xs} h = absurd (ground arith)

no_job : (b : Bool) (j : Job) → (if b then [] else j ∷ []) ≡ [] → b ≡ true
no_job true j h = refl
no_job false j h = absurd (ground arith)

-- The new map is made of inserts of pods under their own keys.
start_map : (b : Bool) (job : Job) (u : Sync) → (start_unless b job u).prmap_new ≡ u.prmap_new
unfolding start_unless
start_map true job u = refl
start_map false job u = refl

sync_old_map : (old : Map PodResources) (u : Sync) → (sync_old old u).prmap_new ≡ u.prmap_new
unfolding sync_old
sync_old_map [] u = refl
sync_old_map ((k, pr) ∷ old) u =
    let b = exist (lookup (podidx pr) u.prmap_new) in
    let job = clean (metadata_to_name pr.namespace pr.name) in
    sync_old_map old (start_unless b job u) ∙ start_map b job u

kept_key :
    (new old : Map PodResources) (k : String) (pr : PodResources)
    → cleaned new old ≡ []
    → lookup k old ≡ some pr
    → exist (lookup (podidx pr) new) ≡ true
unfolding lookup
kept_key new [] k pr h e = none_some pr e
kept_key new ((j, q) ∷ old) k pr h e =
    let (here, later) =
      app_nil
        {xs = if exist (lookup (podidx q) new)
          then []
          else clean (metadata_to_name q.namespace q.name) ∷ []}
        h in
    elim (Bool-cases (str_eq j k)) [
      | inl same ↦
          (let same_pod : q ≡ pr = some_inj (sym (if_true (some q) (lookup k old) same) ∙ e) in
            ap (λ x. exist (lookup (podidx x) new)) (sym same_pod)
            ∙ no_job (exist (lookup (podidx q) new)) (clean (metadata_to_name q.namespace q.name))
                here)
      | inr other ↦ kept_key new old k pr later (sym (if_false (some q) (lookup k old) other) ∙ e)
    ]

exist_some : (o : Option PodResources) → exist o ≡ true → (pr : PodResources) × (o ≡ some pr)
exist_some none h = absurd (ground arith)
exist_some (some pr) h = (pr, refl)

true_both : (a b : Bool) → (a ≡ true → b ≡ true) → (b ≡ true → a ≡ true) → a ≡ b
true_both true b f g = sym (f refl)
true_both false true f g = g refl
true_both false false f g = refl

module _ (deep_equal : PodResources → PodResources → Bool)
    (sound : (p q : PodResources) → deep_equal p q ≡ true → p ≡ q) where
  same_pod :
      (o : Option PodResources) (pr : PodResources) → is_same deep_equal o pr ≡ true → o ≡ some pr
  same_pod none pr h = absurd (ground arith)
  same_pod (some p) pr h = ap some (sound p pr h)

  sync_new-IsKeyed :
      (old : Map PodResources) (prds : List PodResourcesDetail) (u : Sync)
      → IsKeyed u.prmap_new
      → IsKeyed (sync_new deep_equal old prds u).prmap_new
  unfolding sync_new
  sync_new-IsKeyed old [] u v = v
  sync_new-IsKeyed old (prd ∷ prds) u v =
      let pr = prd.pod_resources in
      let b = is_same deep_equal (lookup (podidx pr) old) pr in
      let m = record u { prmap_new = insert (podidx pr) pr u.prmap_new } in
      sync_new-IsKeyed old prds (start_unless b (produce prd) m)
        (rw (start_map b (produce prd) m) (insert-IsKeyed (podidx pr) pr u.prmap_new refl v))

  sync_new-FromOld :
      (old : Map PodResources) (prds : List PodResourcesDetail) (u : Sync)
      → produced deep_equal old prds ≡ []
      → FromOld old u.prmap_new
      → FromOld old (sync_new deep_equal old prds u).prmap_new
  unfolding sync_new
  sync_new-FromOld old [] u h v = v
  sync_new-FromOld old (prd ∷ prds) u h v =
      let pr = prd.pod_resources in
      let b = is_same deep_equal (lookup (podidx pr) old) pr in
      let m = record u { prmap_new = insert (podidx pr) pr u.prmap_new } in
      let (here, later) = app_nil {xs = if b then [] else produce prd ∷ []} h in
      sync_new-FromOld old prds (start_unless b (produce prd) m) later (
        rw (start_map b (produce prd) m) (
          insert-FromOld old u.prmap_new (podidx pr) pr
            (same_pod (lookup (podidx pr) old) pr (no_job b (produce prd) here)) v))

  pub update-IsKeyed :
      (info : String → GpuInfo) (prlist : List PodResources) (old : Map PodResources)
      → IsKeyed (update_pod_resource_func deep_equal info prlist old).prmap_new
  unfolding update_pod_resource_func
  update-IsKeyed info prlist old =
      let prds = fileter_pod_resource info prlist in
      let begin : Sync = record { prmap_new = []; jobs = []; changed = false } in
      rw (sync_old_map old (sync_new deep_equal old prds begin))
        (sync_new-IsKeyed old prds begin (unfold IsKeyed in tt))

  no_flag : (js : List Job) → not (is_empty js) ≡ false → js ≡ []
  no_flag [] h = refl
  no_flag (j ∷ js) h = absurd (ground arith)

  update-FromOld :
      (info : String → GpuInfo) (prlist : List PodResources) (old : Map PodResources)
      → produced deep_equal old (fileter_pod_resource info prlist) ≡ []
      → FromOld old (update_pod_resource_func deep_equal info prlist old).prmap_new
  unfolding update_pod_resource_func
  update-FromOld info prlist old h =
      let prds = fileter_pod_resource info prlist in
      let begin : Sync = record { prmap_new = []; jobs = []; changed = false } in
      rw (sync_old_map old (sync_new deep_equal old prds begin))
        (sync_new-FromOld old prds begin h (unfold FromOld lookup in λ k pr e. none_some pr e))

  both_busy :
      (old new : Map PodResources) (d : String)
      → IsKeyed old
      → IsKeyed new
      → FromOld old new
      → cleaned new old ≡ []
      → is_busy new d ≡ is_busy old d
  unfolding FromOld
  both_busy old new d v u f gone =
      true_both (is_busy new d) (is_busy old d)
        (λ h.
          let (pr, busy, found) = find_busy new d u h in
          busy_of old (podidx pr) d pr (f (podidx pr) pr found) busy)
        (λ h.
          let (pr, busy, found) = find_busy old d v h in
          let (q, there) =
            exist_some (lookup (podidx pr) new) (kept_key new old (podidx pr) pr gone found) in
          let same : q ≡ pr = some_inj (sym (f (podidx pr) q there) ∙ found) in
          busy_of new (podidx pr) d q there (ap (λ x. some_container x.containers d) same ∙ busy))

  -- If DeepEqual holds only of equal pods, and the pods of the round before stand under their keys,
  -- then a round that reports no change leaves exactly the same devices busy.
  pub unchanged_busy :
      (info : String → GpuInfo) (prlist : List PodResources) (old : Map PodResources) (d : String)
      → IsKeyed old
      → (update_pod_resource_func deep_equal info prlist old).changed ≡ false
      → is_busy (update_pod_resource_func deep_equal info prlist old).prmap_new d ≡ is_busy old d
  unchanged_busy info prlist old d v h =
      let u = update_pod_resource_func deep_equal info prlist old in
      let (jobs, flag) = update_pod_resource_func_lem deep_equal info prlist old in
      let none_made = no_flag u.jobs (sym flag ∙ h) in
      let (made, gone) =
        app_nil {xs = produced deep_equal old (fileter_pod_resource info prlist)}
          (sym jobs ∙ none_made) in
      both_busy old u.prmap_new d v (update-IsKeyed info prlist old)
        (update-FromOld info prlist old made) gone
