-- ===== src/DsLoop/Shown.antt =====
-- What the api server holds of the node while the loop runs.
pub mod Rounds
pub mod Runs
use nvidia_gpu_scheduler.Prelude.{
  ℕ, ◌-◌, ◌+◌, ◌<◌, ◌⊎◌, arith, ◌≡◌, refl, ap, sym, ◌∙◌, inl, inr, Bool, Bool-cases, true, false,
  ◌&&◌, not, List, [], ◌∷◌, Option, none, some, String, Map, lookup, delete, ltb, ◌==◌,
  if◌then◌else◌,
}
use Prim.Native.String.{◌++◌ as concat}
use nvidia_gpu_scheduler.Sets.{StringSet}
use nvidia_gpu_scheduler.Api.{GpuInfo, GpuNode}
use nvidia_gpu_scheduler.ModelName.{metadata_to_name}
use nvidia_gpu_scheduler.NodeCache.Free.{is_free}
use nvidia_gpu_scheduler.Report.{PodResources, NodeGpuInfo, GpuNodes, produce_node_gpu_info_crd}
use nvidia_gpu_scheduler.Report.Content.{in_model, is_busy}
use nvidia_gpu_scheduler.Report.Stored.{Storing, produce_node_gpu_info_crd-held}
use nvidia_gpu_scheduler.PodReport.{Sync, update_pod_resource_func}
use nvidia_gpu_scheduler.PodReport.Keyed.{IsKeyed, delete-IsKeyed}
use nvidia_gpu_scheduler.PodReport.Unchanged.{unchanged_busy, update-IsKeyed}
use nvidia_gpu_scheduler.PodStore.{GpuPods, clean_pod_resource_crd, clean_pod_resource_crd_init}
use nvidia_gpu_scheduler.DsLoop.{
  relist_cap, produce_max_errorcount, LoopStatus, running, stopped, blocked, Turn, stop, gpu_info,
  remove, go_on, relist, Loop, begin_loop, on_gpu_info, on_remove, on_go_on, on_relist, sync_pods,
  finish_sync, tell_sync, old_pods, produce_node, clean_pod, forget_pod, clean_once, take_turn,
  loop_step, run_loop,
}
use nvidia_gpu_scheduler.DsLoop.Kept.{
  SameSources, produce-SameSources, clean_crd_held, clean_init_held,
}

module _ (S : StringSet) {W : Type 0} (nodes : GpuNodes W) (pods : GpuPods W)
    (deep_equal : PodResources → PodResources → Bool) (info : String → GpuInfo) where
  -- The report that is made in this state ends without an error.
  abbrev pub IsHeard : List ℕ → Loop S W → Type 0
  IsHeard times s = (produce_node_gpu_info_crd S nodes times (s.node, s.world)).1 ≡ true

  abbrev pub sync_of : List PodResources → Loop S W → Sync
  sync_of prlist s =
      update_pod_resource_func deep_equal info prlist
        (old_pods S nodes pods deep_equal info s.node.podresources_last)

  -- Every report that the turn makes ends without an error.
  unfoldable pub Heard : Turn S → Loop S W → Type 0
  unfolding update_pod_resource_func produce_node_gpu_info_crd clean_pod_resource_crd
      metadata_to_name delete
  Heard stop s = Unit
  Heard (gpu_info times ngi) s = IsHeard times (record s {
    node = record s.node {
      last_node_gpu_info = some (record ngi { node_name = s.node.node_name });
    };
  })
  Heard (remove times namespace name) s = IsHeard times (
      clean_pod S nodes pods deep_equal info (metadata_to_name namespace name) (record s {
        node = record s.node {
          podresources_last =
              forget_pod S nodes pods deep_equal info (concat namespace (concat "/" name))
                s.node.podresources_last;
        };
      }))
  Heard go_on s = Unit
  Heard (relist times none) s = Unit
  Heard (relist times (some prlist)) s =
      (sync_of prlist s).changed ≡ true
      → IsHeard times (tell_sync S nodes pods deep_equal info (sync_of prlist s) s)

  -- The same of all the turns, each in the state in which the loop takes it.
  unfoldable pub AllHeard : List (Turn S) → Loop S W → Type 0
  unfolding Heard loop_step
  AllHeard [] s = Unit
  AllHeard (t ∷ turns) s =
      Heard t s × AllHeard turns (loop_step S nodes pods deep_equal info t s.status s)

  module _ (st : Storing nodes) where
    -- The server holds a GpuNode in which a device is free for a model exactly if the gpu check
    -- told of it under the model and no container of these pods lists it.
    abbrev pub Shows : W → NodeGpuInfo S → Map PodResources → Type 0
    Shows w ngi prm =
        (n : GpuNode) × (st.held w ≡ some n)
        × ((model d : String)
            → is_free model d (some n)
              ≡ (in_model S (lookup model ngi.models) d && not (is_busy prm d)))

    -- The loop knows its pods, and the server shows them with what the gpu check told last.
    unfoldable pub InSync : Loop S W → Type 0
    InSync s =
        (prm : Map PodResources) × (s.node.podresources_last ≡ some prm)
        × IsKeyed prm
        × ((ngi : NodeGpuInfo S) → s.node.last_node_gpu_info ≡ some ngi → Shows s.world ngi prm)

    module _ (sound : (p q : PodResources) → deep_equal p q ≡ true → p ≡ q)
        (apart : (name : String) (w : W) → st.held (pods.delete_pod name w).1 ≡ st.held w) where
      pub InSync-same :
          (s t : Loop S W)
          → t.node ≡ s.node
          → st.held t.world ≡ st.held s.world
          → InSync s
          → InSync t
      unfolding InSync
      InSync-same s t e h (prm, known, keyed, shows) = (
        prm,
        ap (λ n. n.podresources_last) e ∙ known,
        keyed,
        λ ngi k.
            let (n, there, free) = shows ngi (sym (ap (λ n. n.last_node_gpu_info) e) ∙ k) in
            (n, h ∙ there, free),
      )

      pub report-InSync :
          (times : List ℕ) (s : Loop S W) (prm : Map PodResources)
          → s.node.podresources_last ≡ some prm
          → IsKeyed prm
          → IsHeard times s
          → InSync (produce_node S nodes pods deep_equal info times s)
      unfolding InSync SameSources
      report-InSync times s prm known keyed heard =
          let (same_info, same_pods) = produce-SameSources S nodes times s.node s.world in
          (
            prm,
            same_pods ∙ known,
            keyed,
            λ ngi k.
                produce_node_gpu_info_crd-held S nodes st times s.node s.world ngi prm
                  (sym same_info ∙ k) known heard,
          )

      pub gpu_info-InSync :
          (times : List ℕ) (ngi : NodeGpuInfo S) (s : Loop S W)
          → Heard (gpu_info times ngi) s
          → InSync s
          → InSync (on_gpu_info S nodes pods deep_equal info times ngi s)
      unfolding on_gpu_info InSync Heard
      gpu_info-InSync times ngi s heard (prm, known, keyed, shows) =
          report-InSync times
            (record s {
              node = record s.node {
                last_node_gpu_info = some (record ngi { node_name = s.node.node_name });
              };
            })
            prm known keyed heard

      pub remove-InSync :
          (times : List ℕ) (namespace name : String) (s : Loop S W)
          → Heard (remove times namespace name) s
          → InSync s
          → InSync (on_remove S nodes pods deep_equal info times namespace name s)
      unfolding on_remove InSync Heard
      remove-InSync times namespace name s heard (prm, known, keyed, shows) =
          let podidx = concat namespace (concat "/" name) in
          let forgotten : Loop S W = record s {
            node = record s.node {
              podresources_last =
                  forget_pod S nodes pods deep_equal info podidx s.node.podresources_last;
            };
          } in
          report-InSync times
            (clean_pod S nodes pods deep_equal info (metadata_to_name namespace name) forgotten)
            (delete podidx prm) (ap (forget_pod S nodes pods deep_equal info podidx) known)
            (delete-IsKeyed podidx prm keyed) heard

      go_on-InSync : (s : Loop S W) → InSync s → InSync (on_go_on S nodes pods deep_equal info s)
      unfolding on_go_on
      go_on-InSync s v = elim (Bool-cases (ltb s.relist_chan relist_cap)) [
        | inl e ↦ rw e (InSync-same s (record s { relist_chan = s.relist_chan + 1 }) refl refl v)
        | inr e ↦ rw e (InSync-same s (record s { status = blocked }) refl refl v)
      ]
