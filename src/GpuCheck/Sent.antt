-- ===== src/GpuCheck/Sent.antt =====
-- What a round of the checker sends: the invariant of the loop over the devices.
use nvidia_gpu_scheduler.Prelude.{
  ℕ, zero, suc, ◌≡◌, sym, ◌∙◌, Bool, not, true, false, Option, none, some, String, if◌then◌else◌,
}
use nvidia_gpu_scheduler.Sets.{StringSet}
use nvidia_gpu_scheduler.Report.{NodeGpuInfo}
use nvidia_gpu_scheduler.Tables.{TtlCacheGpu}
use mathlib.Core.Path.{subst}
use nvidia_gpu_scheduler.GpuCheck.Cached.{Keeps, update_gpu_info-Keeps}
use nvidia_gpu_scheduler.GpuCheck.Groups.{
  in_model, is_of_model, Grouped, Known, Good, add_device-Known, add_device-Grouped, some_same,
  empty-Known, empty-Grouped,
}
use nvidia_gpu_scheduler.GpuCheck.{
  Nvml, HostGpuInfoChecker, check_devices, check_device, check_uuid, check_updated, Checked,
  checked, check_failed, check_panic, Updated, updated, update_error, update_panic, update_gpu_info,
  Round, round, round_panic, and_then, notify, check_count, check_round, deep_equal_models,
  empty_info,
}

module _ (S : StringSet) where
  add_device-Good :
      (did : String) (ngi : NodeGpuInfo S) (cg : TtlCacheGpu) (u : Updated) (nvml : Nvml) (now : ℕ)
      (node_name : String)
      → Keeps did cg u
      → Known S ngi cg
      → Grouped S ngi
      → Good S (check_updated S nvml now node_name did ngi cg u)
  unfolding check_updated Good Known Keeps
  add_device-Good did ngi cg (updated g cg') nvml now node_name k h gr = (
    add_device-Known S did g ngi cg cg' k h,
    add_device-Grouped S did g ngi (λ x e. some_same S x g (sym (k.1 did x (h did x e)) ∙ k.0)) gr,
  )
  add_device-Good did ngi cg (update_error g) nvml now node_name k h gr = tt
  add_device-Good did ngi cg update_panic nvml now node_name k h gr = tt

  module _ (nvml : Nvml) (now : ℕ) (node_name : String) where
    check_uuid-Good :
        (ngi : NodeGpuInfo S) (cg : TtlCacheGpu) (o : Option String)
        → Known S ngi cg
        → Grouped S ngi
        → Good S (check_uuid S nvml now node_name ngi cg o)
    unfolding check_uuid Good
    check_uuid-Good ngi cg none h gr = tt
    check_uuid-Good ngi cg (some did) h gr =
        add_device-Good did ngi cg (update_gpu_info nvml now node_name did cg) nvml now node_name
          (update_gpu_info-Keeps nvml now node_name did cg) h gr

    check_device-Good :
        (ngi : NodeGpuInfo S) (cg : TtlCacheGpu) (o : Option nvml.Device)
        → Known S ngi cg
        → Grouped S ngi
        → Good S (check_device S nvml now node_name ngi cg o)
    unfolding check_device Good
    check_device-Good ngi cg none h gr = tt
    check_device-Good ngi cg (some device) h gr = check_uuid-Good ngi cg (nvml.get_uuid device) h gr

    and_then-Good :
        (rest : NodeGpuInfo S → TtlCacheGpu → Checked S) (c : Checked S)
        → Good S c
        → ((ngi : NodeGpuInfo S) (cg : TtlCacheGpu)
            → Known S ngi cg
            → Grouped S ngi
            → Good S (rest ngi cg))
        → Good S (and_then S nvml now node_name rest c)
    unfolding and_then Good
    and_then-Good rest (checked ngi cg) g f = f ngi cg g.0 g.1
    and_then-Good rest (check_failed cg) g f = tt
    and_then-Good rest check_panic g f = tt

    check_devices-Good :
        (left i : ℕ) (ngi : NodeGpuInfo S) (cg : TtlCacheGpu)
        → Known S ngi cg
        → Grouped S ngi
        → Good S (check_devices S nvml now node_name left i ngi cg)
    unfolding check_devices Good
    check_devices-Good zero i ngi cg h gr = (h, gr)
    check_devices-Good (suc left) i ngi cg h gr =
        and_then-Good (λ n c. check_devices S nvml now node_name left (suc i) n c)
          (check_device S nvml now node_name ngi cg (nvml.device_get_handle_by_index i))
          (check_device-Good ngi cg (nvml.device_get_handle_by_index i) h gr)
          (λ n c. check_devices-Good left (suc i) n c)

  -- What a round sends tells of each device the model that it has.
  Told : Round S → Type 0
  unfolding Grouped
  Told (round gic none) = Unit
  Told (round gic (some ngi)) = Grouped S ngi
  Told round_panic = Unit

  Told-if : (b : Bool) (x y : Round S) → Told x → Told y → Told (if b then x else y)
  Told-if true x y p q = p
  Told-if false x y p q = q

  notify-Told : (gic : HostGpuInfoChecker S) (c : Checked S) → Good S c → Told (notify S gic c)
  unfolding notify Good Told
  notify-Told gic (checked ngi cg) g =
      Told-if (not (deep_equal_models S gic.model_set_last ngi.models)) _ _ g.1 tt
  notify-Told gic (check_failed cg) g = tt
  notify-Told gic check_panic g = tt

  check_count-Told :
      (nvml : Nvml) (now : ℕ) (node_name : String) (gic : HostGpuInfoChecker S) (o : Option ℕ)
      → Told (check_count S nvml now node_name gic o)
  unfolding check_count Told
  check_count-Told nvml now node_name gic none = tt
  check_count-Told nvml now node_name gic (some count) = notify-Told gic _ (
      check_devices-Good nvml now node_name count 0 (empty_info S) gic.ttl_cache_gpu
        (empty-Known S gic.ttl_cache_gpu) (empty-Grouped S))

  -- In what a round sends, the set of a model holds exactly the devices that the round has found
  -- with a name that is normalised to that model.
  pub check_round-models :
      (nvml : Nvml) (now : ℕ) (node_name : String) (gic gic' : HostGpuInfoChecker S)
      (ngi : NodeGpuInfo S)
      → check_round S nvml now node_name gic ≡ round gic' (some ngi)
      → (model did : String) → in_model S ngi model did ≡ is_of_model S ngi model did
  unfolding check_round Told Grouped
  check_round-models nvml now node_name gic gic' ngi e =
      subst Told e (check_count-Told nvml now node_name gic nvml.device_get_count)
