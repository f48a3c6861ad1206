-- ===== src/GpuCheck/Cached.antt =====
-- What updateGpuInfo does to the cache of gpu infos.
use nvidia_gpu_scheduler.Prelude.{
  ℕ, ◌≡◌, refl, ap, List, Option, none, some, String, str_eq, eq_iff, eq_refl, get_elem?,
  lookup-insert, arith, if◌then◌else◌,
}
use Prim.Native.Char.{Char}
use nvidia_gpu_scheduler.Api.{GpuInfo}
use nvidia_gpu_scheduler.Tables.{
  TtlCacheGpu, CacheGpuInfo, set_cache_gpu_info, get_cache_gpu_info_ignore_ttl,
}
use nvidia_gpu_scheduler.GpuCheck.{
  Nvml, Updated, updated, update_error, update_panic, with_bus_id, with_model, with_brand,
  with_brand_id, with_device, update_from, update_gpu_info, brand2type, bus_id_text,
}

-- The cache gets the device and loses nothing.
unfoldable pub Keeps : String → TtlCacheGpu → Updated → Type 0
Keeps did cg (updated g cg') =
    (get_cache_gpu_info_ignore_ttl did cg' ≡ some g)
    × ((d : String) (x : GpuInfo)
        → get_cache_gpu_info_ignore_ttl d cg ≡ some x
        → get_cache_gpu_info_ignore_ttl d cg' ≡ some x)
Keeps did cg (update_error g) = Unit
Keeps did cg update_panic = Unit

set_cache-get_cache :
    (did : String) (c : CacheGpuInfo) (cg : TtlCacheGpu) (d : String)
    → get_cache_gpu_info_ignore_ttl d (set_cache_gpu_info did c cg)
      ≡ (if str_eq did d then some c.gpu_info else get_cache_gpu_info_ignore_ttl d cg)
unfolding get_cache_gpu_info_ignore_ttl set_cache_gpu_info
set_cache-get_cache did c cg d = rw (lookup-insert did d c cg.gpuinfo) (ground arith)

module _ (nvml : Nvml) (now : ℕ) (node_name : String) (did : String) (cg : TtlCacheGpu)
    (new : get_cache_gpu_info_ignore_ttl did cg ≡ none) where
  after_set :
      (g : GpuInfo) (c : CacheGpuInfo)
      → c.gpu_info ≡ g
      → Keeps did cg (updated g (set_cache_gpu_info did c cg))
  unfolding Keeps
  after_set g c e = (
    rw (set_cache-get_cache did c cg did) (rw (eq_refl did) (ap some e)),
    (λ d x h. rw (set_cache-get_cache did c cg d) (ground (arith, eq_iff did d, new, h))),
  )

  with_bus_id-Keeps :
      (g : GpuInfo) (o : Option (List Char)) → Keeps did cg (with_bus_id nvml now did g cg o)
  unfolding with_bus_id Keeps
  with_bus_id-Keeps g none = tt
  with_bus_id-Keeps g (some bus) =
      let full = record g { bus_id = bus_id_text bus } in
      after_set full (record { gpu_info = full; last_update_time = now }) refl

  with_model-Keeps :
      (device : nvml.Device) (g : GpuInfo) (o : Option String)
      → Keeps did cg (with_model nvml now did device g cg o)
  unfolding with_model Keeps
  with_model-Keeps device g none = tt
  with_model-Keeps device g (some model) =
      with_bus_id-Keeps (record g { model = model }) (nvml.get_pci_info device)

  with_brand-Keeps :
      (device : nvml.Device) (g : GpuInfo) (o : Option String)
      → Keeps did cg (with_brand nvml now did device g cg o)
  unfolding with_brand Keeps
  with_brand-Keeps device g none = tt
  with_brand-Keeps device g (some brand) =
      with_model-Keeps device (record g { brand = brand }) (nvml.get_name device)

  with_brand_id-Keeps :
      (device : nvml.Device) (g : GpuInfo) (o : Option ℕ)
      → Keeps did cg (with_brand_id nvml now did device g cg o)
  unfolding with_brand_id Keeps
  with_brand_id-Keeps device g none = tt
  with_brand_id-Keeps device g (some brandid) =
      with_brand-Keeps device g (get_elem? brand2type brandid)

  with_device-Keeps :
      (g : GpuInfo) (o : Option nvml.Device) → Keeps did cg (with_device nvml now did g cg o)
  unfolding with_device Keeps
  with_device-Keeps g none = tt
  with_device-Keeps g (some device) = with_brand_id-Keeps device g (nvml.get_brand device)

update_from-Keeps :
    (nvml : Nvml) (now : ℕ) (node_name did : String) (cg : TtlCacheGpu) (o : Option GpuInfo)
    → get_cache_gpu_info_ignore_ttl did cg ≡ o
    → Keeps did cg (update_from nvml now node_name did cg o)
unfolding update_from Keeps
update_from-Keeps nvml now node_name did cg none h =
    with_device-Keeps nvml now node_name did cg h
      (record { device_id = did; brand = ""; model = ""; bus_id = ""; node_name = node_name })
      (nvml.device_get_handle_by_uuid did)
update_from-Keeps nvml now node_name did cg (some g) h = (h, (λ d x k. k))

pub update_gpu_info-Keeps :
    (nvml : Nvml) (now : ℕ) (node_name did : String) (cg : TtlCacheGpu)
    → Keeps did cg (update_gpu_info nvml now node_name did cg)
unfolding update_gpu_info
update_gpu_info-Keeps nvml now node_name did cg =
    update_from-Keeps nvml now node_name did cg (get_cache_gpu_info_ignore_ttl did cg) refl
