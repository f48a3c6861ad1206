-- ===== src/PodReport/Listed.antt =====
-- The jobs and the map of a round of updatePodResourceFunc, against the kubelet's answer.
use nvidia_gpu_scheduler.Prelude.{
  ◌≡◌, refl, ap, ◌∙◌, Bool, true, false, not, ◌||◌, ◌&&◌, List, [], ◌∷◌, ◌++◌, Option, none, some,
  String, str_eq, Map, lookup, insert, lookup-insert, length, ltb, arith, if◌then◌else◌,
}
use nvidia_gpu_scheduler.Api.{GpuInfo}
use nvidia_gpu_scheduler.ModelName.{metadata_to_name}
use nvidia_gpu_scheduler.Report.{ContainerDevices, ContainerResources, PodResources}
use nvidia_gpu_scheduler.PodReport.{
  PodResourcesDetail, has_entry, has_device, container_details, fileter_pod_resource, Job, produce,
  clean, Sync, podidx, is_same, sync_new, sync_old, exist, start_unless, update_pod_resource_func,
}
use nvidia_gpu_scheduler.PodReport.Jobs.{produced, cleaned, is_empty, update_pod_resource_func_lem}

-- A container holds a device.
abbrev pub holds_device : List ContainerResources → Bool
holds_device [] = false
holds_device (c ∷ cs) = if ltb 0 (length c.devices) then true else holds_device cs

abbrev pub or_else : Option PodResources → Option PodResources → Option PodResources
or_else none o = o
or_else (some pr) o = some pr

-- The last pod of the answer that has this index and holds a device.
abbrev pub last_listed : String → List PodResources → Option PodResources
last_listed k [] = none
last_listed k (pr ∷ prlist) =
    or_else (last_listed k prlist)
      (if holds_device pr.containers && str_eq (podidx pr) k then some pr else none)

abbrev pub is_listed : Option PodResources → Bool
is_listed none = false
is_listed (some pr) = true

-- The clean-ups of the old pods that the answer does not list with a device.
abbrev pub due_cleans : List PodResources → Map PodResources → List Job
due_cleans prlist [] = []
due_cleans prlist ((k, pr) ∷ old) =
    (if is_listed (last_listed (podidx pr) prlist)
      then []
      else clean (metadata_to_name pr.namespace pr.name) ∷ [])
    ++ due_cleans prlist old

entry-length :
    (ds : List ContainerDevices) (b : Bool)
    → (has_entry ds || b) ≡ (if ltb 0 (length ds) then true else b)
entry-length [] b = refl
entry-length (d ∷ ds) b = ground arith

has_device-holds : (cs : List ContainerResources) → has_device cs ≡ holds_device cs
unfolding has_device
has_device-holds [] = refl
has_device-holds (c ∷ cs) = rw (has_device-holds cs) (entry-length c.devices (holds_device cs))

start_unless-prmap_new :
    (b : Bool) (job : Job) (u : Sync) → (start_unless b job u).prmap_new ≡ u.prmap_new
unfolding start_unless
start_unless-prmap_new true job u = refl
start_unless-prmap_new false job u = refl

or_else_assoc : (o p q : Option PodResources) → or_else o (or_else p q) ≡ or_else (or_else o p) q
or_else_assoc none p q = refl
or_else_assoc (some pr) p q = refl

or_else-if :
    (b : Bool) (pr : PodResources) (o : Option PodResources)
    → (if b then some pr else o) ≡ or_else (if b then some pr else none) o
or_else-if true pr o = refl
or_else-if false pr o = refl

last_in : String → List PodResourcesDetail → Option PodResources
last_in k [] = none
last_in k (prd ∷ prds) =
    or_else (last_in k prds)
      (if str_eq (podidx prd.pod_resources) k then some prd.pod_resources else none)

exist-is_listed : (o : Option PodResources) → exist o ≡ is_listed o
exist-is_listed none = refl
exist-is_listed (some pr) = refl

module _ (deep_equal : PodResources → PodResources → Bool) where
  -- The pod was there before, with the same content.
  abbrev pub was_same : Option PodResources → PodResources → Bool
  was_same none pr = false
  was_same (some before) pr = deep_equal before pr

  is_same-was_same :
      (o : Option PodResources) (pr : PodResources) → is_same deep_equal o pr ≡ was_same o pr
  is_same-was_same none pr = refl
  is_same-was_same (some before) pr = refl

  -- The productions of the listed pods that hold a device and are not the same as before.
  abbrev pub due_productions : (String → GpuInfo) → Map PodResources → List PodResources → List Job
  due_productions info old [] = []
  due_productions info old (pr ∷ prlist) =
      (if holds_device pr.containers && not (was_same (lookup (podidx pr) old) pr)
        then produce (record {
          pod_resources = pr;
          container_devices = container_details info pr.containers;
        })
          ∷ []
        else [])
      ++ due_productions info old prlist

  lookup-sync_new :
      (k : String) (old : Map PodResources) (prds : List PodResourcesDetail) (u : Sync)
      → lookup k (sync_new deep_equal old prds u).prmap_new
        ≡ or_else (last_in k prds) (lookup k u.prmap_new)
  unfolding sync_new last_in
  lookup-sync_new k old [] u = refl
  lookup-sync_new k old (prd ∷ prds) u =
      let pr = prd.pod_resources in
      let b = is_same deep_equal (lookup (podidx pr) old) pr in
      let v = record u { prmap_new = insert (podidx pr) pr u.prmap_new } in
      lookup-sync_new k old prds (start_unless b (produce prd) v)
      ∙ ap (λ m. or_else (last_in k prds) (lookup k m)) (start_unless-prmap_new b (produce prd) v)
      ∙ ap (or_else (last_in k prds)) (
          lookup-insert (podidx pr) k pr u.prmap_new
          ∙ or_else-if (str_eq (podidx pr) k) pr (lookup k u.prmap_new))
      ∙ or_else_assoc (last_in k prds) (if str_eq (podidx pr) k then some pr else none)
          (lookup k u.prmap_new)

  productions-filter :
      (info : String → GpuInfo) (old : Map PodResources) (prlist : List PodResources)
      → produced deep_equal old (fileter_pod_resource info prlist) ≡ due_productions info old prlist
  unfolding fileter_pod_resource
  productions-filter info old [] = refl
  productions-filter info old (pr ∷ prlist) = ground (
    arith,
    has_device-holds pr.containers,
    is_same-was_same (lookup (podidx pr) old) pr,
    productions-filter info old prlist,
  )

last_in-filter :
    (k : String) (info : String → GpuInfo) (prlist : List PodResources)
    → last_in k (fileter_pod_resource info prlist) ≡ last_listed k prlist
unfolding fileter_pod_resource last_in
last_in-filter k info [] = refl
last_in-filter k info (pr ∷ prlist) =
    ground (arith, has_device-holds pr.containers, last_in-filter k info prlist)

or_else-none : (o : Option PodResources) → or_else o none ≡ o
or_else-none none = refl
or_else-none (some pr) = refl

cleaned-due :
    (new old : Map PodResources) (prlist : List PodResources)
    → ((k : String) → lookup k new ≡ last_listed k prlist)
    → cleaned new old ≡ due_cleans prlist old
cleaned-due new [] prlist h = refl
cleaned-due new ((k, pr) ∷ old) prlist h =
    rw
      (
        h (podidx pr),
        exist-is_listed (last_listed (podidx pr) prlist),
        cleaned-due new old prlist h,
      )
      refl

sync_old-prmap_new : (old : Map PodResources) (u : Sync) → (sync_old old u).prmap_new ≡ u.prmap_new
unfolding sync_old
sync_old-prmap_new [] u = refl
sync_old-prmap_new ((k, pr) ∷ old) u =
    let b = exist (lookup (podidx pr) u.prmap_new) in
    let job = clean (metadata_to_name pr.namespace pr.name) in
    sync_old-prmap_new old (start_unless b job u) ∙ start_unless-prmap_new b job u

module _ (deep_equal : PodResources → PodResources → Bool) where
  new_map :
      (info : String → GpuInfo) (prlist : List PodResources) (old : Map PodResources) (k : String)
      → lookup k (update_pod_resource_func deep_equal info prlist old).prmap_new
        ≡ last_listed k prlist
  unfolding update_pod_resource_func
  new_map info prlist old k =
      let prds = fileter_pod_resource info prlist in
      let u =
        sync_new deep_equal old prds (record { prmap_new = []; jobs = []; changed = false }) in
      ap (lookup k) (sync_old-prmap_new old u)
      ∙ lookup-sync_new deep_equal k old prds
          (record { prmap_new = []; jobs = []; changed = false })
      ∙ or_else-none (last_in k prds)
      ∙ last_in-filter k info prlist

  -- A round of updatePodResourceFunc starts a production for each pod of the kubelet's answer that
  -- holds a device and is not the same as in the round before, in the order of the answer, and then a
  -- clean-up for each pod of the round before that the answer does not list with a device; it reports
  -- a change exactly if it starts something; and it keeps for the next round the pods of the answer
  -- that hold a device, of those with one index the last.
  pub round_starts_lem :
      (info : String → GpuInfo) (prlist : List PodResources) (old : Map PodResources)
      → let u = update_pod_resource_func deep_equal info prlist old in
        (u.jobs ≡ due_productions deep_equal info old prlist ++ due_cleans prlist old)
        × (u.changed ≡ not (is_empty u.jobs))
        × ((k : String) → lookup k u.prmap_new ≡ last_listed k prlist)
  round_starts_lem info prlist old =
      let u = update_pod_resource_func deep_equal info prlist old in
      let (jobs, flag) = update_pod_resource_func_lem deep_equal info prlist old in
      let kept = new_map info prlist old in
      (
        jobs
            ∙ ap (λ x. x ++ cleaned u.prmap_new old) (productions-filter deep_equal info old prlist)
            ∙ ap (λ x. due_productions deep_equal info old prlist ++ x)
                (cleaned-due u.prmap_new old prlist kept),
        flag,
        kept,
      )
