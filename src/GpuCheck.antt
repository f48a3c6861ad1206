-- ===== src/GpuCheck.antt =====
-- How gpuserver-ds finds the gpus of its node: NewHostGpuInfoChecker and Start of
-- pkg/gpuserver-ds/controller/hostgpuchecker.go, and updateGpuInfo of
-- pkg/gpuserver-ds/controller/controller.go. NVML is a parameter: what it answers in one round.
pub mod Cached
pub mod Groups
pub mod Sent
pub mod Notices
pub mod Told
use Prim.Native.Char.{Char, code}
use Prim.Native.String.{String as Text, ◌++◌ as concat}
use nvidia_gpu_scheduler.Prelude.{
  ℕ, zero, suc, Bool, true, false, not, ◌&&◌, List, [], ◌∷◌, ◌++◌, Option, none, some, String, Map,
  lookup, insert, keys, get_elem?, ◌==◌, if◌then◌else◌,
}
use nvidia_gpu_scheduler.Sets.{StringSet}
use nvidia_gpu_scheduler.Api.{GpuInfo}
use nvidia_gpu_scheduler.ModelName.{normalize_model_name}
use nvidia_gpu_scheduler.Report.{NodeGpuInfo}
use nvidia_gpu_scheduler.Tables.{
  TtlCacheGpu, CacheGpuInfo, get_cache_gpu_info_ignore_ttl, set_cache_gpu_info,
}

-- `none` for a return code other than SUCCESS.
pub record Nvml : Type 1 where
  pub Device : Type 0
  pub device_get_count : Option ℕ
  pub device_get_handle_by_index : ℕ → Option Device
  pub device_get_handle_by_uuid : String → Option Device
  pub get_uuid : Device → Option String
  pub get_brand : Device → Option ℕ
  pub get_name : Device → Option String
  -- the characters of BusId, with the zeros that fill it up
  pub get_pci_info : Device → Option (List Char)

abbrev pub brand2type : List String
brand2type =
    "BRAND_UNKNOWN" ∷ "BRAND_QUADRO" ∷ "BRAND_TESLA" ∷ "BRAND_NVS" ∷ "BRAND_GRID" ∷ "BRAND_GEFORCE"
    ∷ "BRAND_TITAN" ∷ "BRAND_NVIDIA_VAPPS" ∷ "BRAND_NVIDIA_VPC" ∷ "BRAND_NVIDIA_VCS"
    ∷ "BRAND_NVIDIA_VWS" ∷ "BRAND_NVIDIA_VGAMING" ∷ "BRAND_QUADRO_RTX" ∷ "BRAND_NVIDIA_RTX"
    ∷ "BRAND_NVIDIA" ∷ "BRAND_GEFORCE_RTX" ∷ "BRAND_TITAN_RTX" ∷ "BRAND_COUNT" ∷ []

-- What updateGpuInfo ends with: no error and the cache, an error with what it had filled in, or a
-- panic.
pub data Updated : Type 0 where
  updated : GpuInfo → TtlCacheGpu → Updated
  update_error : GpuInfo → Updated
  update_panic : Updated

-- for _, v := range pciinfo.BusId
unfoldable pub bus_id_text : List Char → String
bus_id_text [] = ""
bus_id_text (c ∷ cs) = if code c == 0 then bus_id_text cs else Text.◌∷◌ c (bus_id_text cs)

module _ (nvml : Nvml) (now : ℕ) where
  pub with_bus_id : String → GpuInfo → TtlCacheGpu → Option (List Char) → Updated
  unfolding bus_id_text set_cache_gpu_info
  with_bus_id did g cg none = update_error g
  with_bus_id did g cg (some bus) =
      let full = record g { bus_id = bus_id_text bus } in
      updated full (set_cache_gpu_info did (record { gpu_info = full; last_update_time = now }) cg)

  pub with_model : String → nvml.Device → GpuInfo → TtlCacheGpu → Option String → Updated
  unfolding with_bus_id
  with_model did device g cg none = update_error g
  with_model did device g cg (some model) =
      with_bus_id did (record g { model = model }) cg (nvml.get_pci_info device)

  -- The index into brand2type
  pub with_brand : String → nvml.Device → GpuInfo → TtlCacheGpu → Option String → Updated
  unfolding with_model
  with_brand did device g cg none = update_panic
  with_brand did device g cg (some brand) =
      with_model did device (record g { brand = brand }) cg (nvml.get_name device)

  pub with_brand_id : String → nvml.Device → GpuInfo → TtlCacheGpu → Option ℕ → Updated
  unfolding with_brand
  with_brand_id did device g cg none = update_error g
  with_brand_id did device g cg (some brandid) =
      with_brand did device g cg (get_elem? brand2type brandid)

  pub with_device : String → GpuInfo → TtlCacheGpu → Option nvml.Device → Updated
  unfolding with_brand_id
  with_device did g cg none = update_error g
  with_device did g cg (some device) = with_brand_id did device g cg (nvml.get_brand device)

  pub update_from : String → String → TtlCacheGpu → Option GpuInfo → Updated
  unfolding with_device
  update_from node_name did cg (some g) = updated g cg
  update_from node_name did cg none =
      with_device did
        (record { device_id = did; brand = ""; model = ""; bus_id = ""; node_name = node_name }) cg
        (nvml.device_get_handle_by_uuid did)

  unfoldable pub update_gpu_info : String → String → TtlCacheGpu → Updated
  unfolding update_from get_cache_gpu_info_ignore_ttl
  update_gpu_info node_name did cg =
      update_from node_name did cg (get_cache_gpu_info_ignore_ttl did cg)

module _ (S : StringSet) where
  pub record HostGpuInfoChecker : Type 0 where
    pub model_set_last : Map S.Set
    pub ttl_cache_gpu : TtlCacheGpu

  -- The answer of nvml.Init.
  unfoldable pub new_host_gpu_info_checker :
      TtlCacheGpu → Option String → Option HostGpuInfoChecker × String
  new_host_gpu_info_checker cg none =
      (some (record { model_set_last = []; ttl_cache_gpu = cg }), "")
  new_host_gpu_info_checker cg (some e) = (none, concat "unable to initialize NVML: " e)

  -- What the loop over the devices ends with: every device is known, or needNotify is false.
  pub data Checked : Type 0 where
    checked : NodeGpuInfo S → TtlCacheGpu → Checked
    check_failed : TtlCacheGpu → Checked
    check_panic : Checked

  pub set_or_new : Option S.Set → S.Set
  set_or_new none = S.new
  set_or_new (some s) = s

  unfoldable pub add_under : String → String → GpuInfo → NodeGpuInfo S → NodeGpuInfo S
  unfolding insert lookup set_or_new
  add_under nmodel did g ngi = record ngi {
    gpu_infos = insert did g ngi.gpu_infos;
    models = insert nmodel (S.insert (set_or_new (lookup nmodel ngi.models)) (did ∷ [])) ngi.models;
  }

  unfoldable pub add_device : String → GpuInfo → NodeGpuInfo S → NodeGpuInfo S
  unfolding add_under normalize_model_name
  add_device did g ngi = add_under (normalize_model_name g.model) did g ngi

  module _ (nvml : Nvml) (now : ℕ) (node_name : String) where
    pub check_updated : String → NodeGpuInfo S → TtlCacheGpu → Updated → Checked
    unfolding add_device
    check_updated did ngi cg (updated g cg') = checked (add_device did g ngi) cg'
    check_updated did ngi cg (update_error g) = check_failed cg
    check_updated did ngi cg update_panic = check_panic

    pub check_uuid : NodeGpuInfo S → TtlCacheGpu → Option String → Checked
    unfolding check_updated update_gpu_info
    check_uuid ngi cg none = check_failed cg
    check_uuid ngi cg (some did) =
        check_updated did ngi cg (update_gpu_info nvml now node_name did cg)

    pub check_device : NodeGpuInfo S → TtlCacheGpu → Option nvml.Device → Checked
    unfolding check_uuid
    check_device ngi cg none = check_failed cg
    check_device ngi cg (some device) = check_uuid ngi cg (nvml.get_uuid device)

    pub and_then : (NodeGpuInfo S → TtlCacheGpu → Checked) → Checked → Checked
    and_then rest (checked ngi cg) = rest ngi cg
    and_then rest (check_failed cg) = check_failed cg
    and_then rest check_panic = check_panic

    -- for i := 0; i < count; i++, with the number of the devices that are left
    unfoldable pub check_devices : ℕ → ℕ → NodeGpuInfo S → TtlCacheGpu → Checked
    unfolding check_device and_then
    check_devices zero i ngi cg = checked ngi cg
    check_devices (suc left) i ngi cg =
        and_then (λ ngi' cg'. check_devices left (suc i) ngi' cg')
          (check_device ngi cg (nvml.device_get_handle_by_index i))

  pub same_set : Option S.Set → Option S.Set → Bool
  same_set none none = true
  same_set none (some t) = false
  same_set (some s) none = false
  same_set (some s) (some t) = S.deep_equal s t

  pub same_at : Map S.Set → Map S.Set → List String → Bool
  unfolding same_set lookup
  same_at m n [] = true
  same_at m n (k ∷ ks) = same_set (lookup k m) (lookup k n) && same_at m n ks

  -- reflect.DeepEqual of two maps that are not nil
  unfoldable pub deep_equal_models : Map S.Set → Map S.Set → Bool
  unfolding same_at
  deep_equal_models m n = same_at m n (keys m ++ keys n)

  -- A round leaves the checker, with what it sends through gpuinfoChan, or panics.
  pub data Round : Type 0 where
    round : HostGpuInfoChecker → Option (NodeGpuInfo S) → Round
    round_panic : Round

  abbrev pub empty_info : NodeGpuInfo S
  empty_info = record { node_name = ""; gpu_infos = []; models = [] }

  -- `if needNotify`
  unfoldable pub notify : HostGpuInfoChecker → Checked → Round
  unfolding deep_equal_models
  notify gic (checked ngi cg) =
      if not (deep_equal_models gic.model_set_last ngi.models)
      then round (record { model_set_last = ngi.models; ttl_cache_gpu = cg }) (some ngi)
      else round (record gic { ttl_cache_gpu = cg }) none
  notify gic (check_failed cg) = round (record gic { ttl_cache_gpu = cg }) none
  notify gic check_panic = round_panic

  pub check_count : Nvml → ℕ → String → HostGpuInfoChecker → Option ℕ → Round
  unfolding notify check_devices
  check_count nvml now node_name gic none = round gic none
  check_count nvml now node_name gic (some count) =
      notify gic (check_devices nvml now node_name count 0 empty_info gic.ttl_cache_gpu)

  -- case <-ct
  unfoldable pub check_round : Nvml → ℕ → String → HostGpuInfoChecker → Round
  unfolding check_count
  check_round nvml now node_name gic = check_count nvml now node_name gic nvml.device_get_count
