-- ===== src/Tables/Reads.antt =====
-- What the tables answer after a write.
use nvidia_gpu_scheduler.Prelude.{
  ℕ, ◌+◌, ◌≡◌, refl, Bool, false, Option, none, some, String, str_eq, lookup, lookup-insert, ltb,
  arith, if◌then◌else◌,
}
use nvidia_gpu_scheduler.Sets.{StringSet}
use nvidia_gpu_scheduler.Tables.{
  NodeGpuInfoMap, devices_after, set_node_device_in_use, devices_or_new, get_node_device_in_use,
  CacheGpuInfo, TtlCacheGpu, info_of, fresh_info_of, get_cache_gpu_info,
  get_cache_gpu_info_ignore_ttl, set_cache_gpu_info,
}

module _ (S : StringSet) where
  has-devices_after :
      (s : S.Set) (o : Option S.Set) (d : String) → S.has (devices_after S s o) d ≡ S.has s d
  unfolding devices_after
  has-devices_after s none d = refl
  has-devices_after s (some old) d =
      let all = S.insert old (S.to_list s) in
      ground (
        arith,
        S.has-delete all (S.to_list (S.difference all s)) d,
        S.has_text-to_list (S.difference all s) d,
        S.has-difference all s d,
        S.has-insert old (S.to_list s) d,
        S.has_text-to_list s d,
      )

  -- The devices of a node in the table; none for a node that is not there.
  abbrev pub in_use : Option S.Set → String → Bool
  in_use none d = false
  in_use (some s) d = S.has s d

  has-devices_or_new :
      (node : String) (gim : NodeGpuInfoMap S) (o : Option S.Set) (d : String)
      → S.has (devices_or_new S node gim o).0 d ≡ in_use o d
  unfolding devices_or_new
  has-devices_or_new node gim none d = S.has-new d
  has-devices_or_new node gim (some s) d = refl

  -- After SetNodeDeviceInUse a node has exactly the devices in use that were told, whatever it had
  -- before, and every other node has those that it had.
  pub has-set_node_device_in_use :
      (node other d : String) (s : S.Set) (gim : NodeGpuInfoMap S)
      → S.has (get_node_device_in_use S other (set_node_device_in_use S node s gim)).0 d
        ≡ (if str_eq node other then S.has s d else S.has (get_node_device_in_use S other gim).0 d)
  unfolding get_node_device_in_use set_node_device_in_use
  has-set_node_device_in_use node other d s gim =
      let new = devices_after S s (lookup node gim.node_device_in_use) in
      rw
        (
          has-devices_or_new other (set_node_device_in_use S node s gim)
              (lookup other (set_node_device_in_use S node s gim).node_device_in_use) d,
          has-devices_or_new other gim (lookup other gim.node_device_in_use) d,
          lookup-insert node other new gim.node_device_in_use,
        )
        (ground (arith, has-devices_after s (lookup node gim.node_device_in_use) d))

-- After SetCacheGpuInfo the cache answers for the device with the new info as long as it is fresh,
-- and without regard to its age if asked to ignore it; for every other device it answers as before.
pub get_cache_gpu_info-set_cache_gpu_info :
    (now : ℕ) (did other : String) (v : CacheGpuInfo) (cg : TtlCacheGpu)
    → (get_cache_gpu_info now other (set_cache_gpu_info did v cg) ≡ (
        if str_eq did other
        then (if ltb now (v.last_update_time + cg.cache_ttl) then some v.gpu_info else none)
        else get_cache_gpu_info now other cg))
      × (get_cache_gpu_info_ignore_ttl other (set_cache_gpu_info did v cg)
          ≡ (if str_eq did other then some v.gpu_info else get_cache_gpu_info_ignore_ttl other cg))
unfolding get_cache_gpu_info get_cache_gpu_info_ignore_ttl set_cache_gpu_info info_of fresh_info_of
get_cache_gpu_info-set_cache_gpu_info now did other v cg =
    rw (lookup-insert did other v cg.gpuinfo) (ground arith, ground arith)
