-- ===== src/DsLoop/Shown/Rounds.antt =====
-- How the turns of the loop keep what the api server shows of the node.
use nvidia_gpu_scheduler.Prelude.{
  ℕ, ◌-◌, ◌≡◌, refl, ap, sym, ◌∙◌, Bool, true, false, ◌&&◌, not, List, Option, none, some, String,
  Map, lookup, ◌==◌, if◌then◌else◌,
}
use nvidia_gpu_scheduler.Sets.{StringSet}
use nvidia_gpu_scheduler.Api.{GpuInfo}
use nvidia_gpu_scheduler.Report.{PodResources, GpuNodes}
use nvidia_gpu_scheduler.Report.Content.{in_model, is_busy}
use nvidia_gpu_scheduler.Report.Stored.{Storing}
use nvidia_gpu_scheduler.PodReport.Unchanged.{unchanged_busy, update-IsKeyed}
use nvidia_gpu_scheduler.PodStore.{GpuPods, clean_pod_resource_crd_init}
use nvidia_gpu_scheduler.DsLoop.{
  produce_max_errorcount, stopped, Turn, stop, gpu_info, remove, go_on, relist, Loop, on_relist,
  sync_pods, finish_sync, tell_sync, old_pods, produce_node, clean_once, take_turn,
}
use nvidia_gpu_scheduler.DsLoop.Kept.{clean_init_held}
use nvidia_gpu_scheduler.DsLoop.Shown.{
  IsHeard, sync_of, Heard, InSync, InSync-same, report-InSync, gpu_info-InSync, remove-InSync,
  go_on-InSync,
}

module _ (S : StringSet) {W : Type 0} (nodes : GpuNodes W) (pods : GpuPods W)
    (deep_equal : PodResources → PodResources → Bool) (info : String → GpuInfo) (st : Storing nodes)
    (sound : (p q : PodResources) → deep_equal p q ≡ true → p ≡ q)
    (apart : (name : String) (w : W) → st.held (pods.delete_pod name w).1 ≡ st.held w) where
  InSync-if :
      (b : Bool) (x y : Loop S W)
      → (b ≡ true → InSync S nodes pods deep_equal info st x)
      → (b ≡ false → InSync S nodes pods deep_equal info st y)
      → InSync S nodes pods deep_equal info st (if b then x else y)
  InSync-if true x y f g = f refl
  InSync-if false x y f g = g refl

  clean_once-InSync :
      (new : Map PodResources) (s : Loop S W)
      → InSync S nodes pods deep_equal info st s
      → InSync S nodes pods deep_equal info st (clean_once S nodes pods deep_equal info new s)
  unfolding clean_once
  clean_once-InSync new s v =
      let r = clean_pod_resource_crd_init pods produce_max_errorcount new (s.pods, s.world) in
      InSync-if s.is_cleaned s (record s { pods = r.0; world = r.1; is_cleaned = true }) (λ e. v)
        (λ e.
          InSync-same S nodes pods deep_equal info st sound apart s
            (record s { pods = r.0; world = r.1; is_cleaned = true }) refl
            (clean_init_held pods st.held apart produce_max_errorcount new (s.pods, s.world)) v)

  -- A round with a change reports the new pods.
  told_changed :
      (times : List ℕ) (prlist : List PodResources) (s : Loop S W)
      → IsHeard S nodes pods deep_equal info times
          (tell_sync S nodes pods deep_equal info (sync_of S nodes pods deep_equal info prlist s) s)
      → InSync S nodes pods deep_equal info st (
          produce_node S nodes pods deep_equal info times (
            tell_sync S nodes pods deep_equal info
              (sync_of S nodes pods deep_equal info prlist s)
              s))
  told_changed times prlist s heard =
      report-InSync S nodes pods deep_equal info st sound apart times
        (tell_sync S nodes pods deep_equal info (sync_of S nodes pods deep_equal info prlist s) s)
        (sync_of S nodes pods deep_equal info prlist s).prmap_new refl
        (update-IsKeyed deep_equal sound info prlist
          (old_pods S nodes pods deep_equal info s.node.podresources_last))
        heard

  -- A round without a change: the pods are new, and the same devices are busy.
  tell-InSync :
      (prlist : List PodResources) (s : Loop S W)
      → (sync_of S nodes pods deep_equal info prlist s).changed ≡ false
      → InSync S nodes pods deep_equal info st s
      → InSync S nodes pods deep_equal info st
          (tell_sync S nodes pods deep_equal info (sync_of S nodes pods deep_equal info prlist s) s)
  unfolding InSync
  tell-InSync prlist s same (prm, known, keyed, shows) =
      let old = old_pods S nodes pods deep_equal info s.node.podresources_last in
      let e : old ≡ prm = ap (old_pods S nodes pods deep_equal info) known in
      (
        (sync_of S nodes pods deep_equal info prlist s).prmap_new,
        refl,
        update-IsKeyed deep_equal sound info prlist old,
        λ ngi k.
            let (n, there, free) = shows ngi k in
            (
              n,
              there,
              λ model d.
                  free model d
                  ∙ ap (λ b. in_model S (lookup model ngi.models) d && not b)
                      (ap (λ m. is_busy m d) (sym e)
                        ∙ sym
                            (unchanged_busy deep_equal sound info prlist old d (rw e keyed) same)),
            ),
      )

  pub finish-InSync :
      (times : List ℕ) (prlist : List PodResources) (s : Loop S W)
      → Heard S nodes pods deep_equal info (relist times (some prlist)) s
      → ((sync_of S nodes pods deep_equal info prlist s).changed ≡ false
          → InSync S nodes pods deep_equal info st (
              tell_sync S nodes pods deep_equal info
                (sync_of S nodes pods deep_equal info prlist s)
                s))
      → InSync S nodes pods deep_equal info st (
          finish_sync S nodes pods deep_equal info times
            (sync_of S nodes pods deep_equal info prlist s)
            s)
  unfolding finish_sync Heard
  finish-InSync times prlist s heard v =
      let u = sync_of S nodes pods deep_equal info prlist s in
      let told = tell_sync S nodes pods deep_equal info u s in
      let made = produce_node S nodes pods deep_equal info times told in
      clean_once-InSync u.prmap_new (if u.changed then made else told)
        (InSync-if u.changed made told (λ e. told_changed times prlist s (heard e)) v)

  relist-InSync :
      (times : List ℕ) (answer : Option (List PodResources)) (s : Loop S W)
      → Heard S nodes pods deep_equal info (relist times answer) s
      → InSync S nodes pods deep_equal info st s
      → InSync S nodes pods deep_equal info st
          (on_relist S nodes pods deep_equal info times answer s)
  unfolding on_relist sync_pods
  relist-InSync times none s heard v =
      InSync-same S nodes pods deep_equal info st sound apart s (record s { status = stopped }) refl
        refl v
  relist-InSync times (some prlist) s heard v =
      finish-InSync times prlist s heard (λ e. tell-InSync prlist s e v)

  pub Heard-chan :
      (times : List ℕ) (answer : Option (List PodResources)) (k : ℕ) (s : Loop S W)
      → Heard S nodes pods deep_equal info (relist times answer) s
      → Heard S nodes pods deep_equal info (relist times answer) (record s { relist_chan = k })
  unfolding Heard
  Heard-chan times none k s h = h
  Heard-chan times (some prlist) k s h = h

  pub take_turn-InSync :
      (t : Turn S) (s : Loop S W)
      → Heard S nodes pods deep_equal info t s
      → InSync S nodes pods deep_equal info st s
      → InSync S nodes pods deep_equal info st (take_turn S nodes pods deep_equal info t s)
  unfolding take_turn Heard
  take_turn-InSync stop s heard v =
      InSync-same S nodes pods deep_equal info st sound apart s (record s { status = stopped }) refl
        refl v
  take_turn-InSync (gpu_info times ngi) s heard v =
      gpu_info-InSync S nodes pods deep_equal info st sound apart times ngi s heard v
  take_turn-InSync (remove times namespace name) s heard v =
      remove-InSync S nodes pods deep_equal info st sound apart times namespace name s heard v
  take_turn-InSync go_on s heard v = go_on-InSync S nodes pods deep_equal info st sound apart s v
  take_turn-InSync (relist times answer) s heard v =
      InSync-if (s.relist_chan == 0) s _ (λ e. v)
        (λ e.
          relist-InSync times answer (record s { relist_chan = s.relist_chan - 1 })
            (Heard-chan times answer (s.relist_chan - 1) s heard)
            (InSync-same S nodes pods deep_equal info st sound apart s
              (record s { relist_chan = s.relist_chan - 1 }) refl refl v))
