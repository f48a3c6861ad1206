-- ===== src/GpuCheck/Notices.antt =====
-- When a round tells the controller of its devices.
use nvidia_gpu_scheduler.Prelude.{
  ℕ, ◌≡◌, refl, Bool, true, false, not, List, [], ◌∷◌, Option, none, some, String, Map, arith,
  if◌then◌else◌,
}
use nvidia_gpu_scheduler.Sets.{StringSet}
use nvidia_gpu_scheduler.Report.{NodeGpuInfo}
use nvidia_gpu_scheduler.GpuCheck.{
  Nvml, HostGpuInfoChecker, Checked, checked, check_failed, check_panic, Round, round, round_panic,
  notify, check_count, check_round, deep_equal_models, empty_info, check_devices,
}

module _ (S : StringSet) where
  unfoldable pub after_round :
      (HostGpuInfoChecker S → List (NodeGpuInfo S)) → Round S → List (NodeGpuInfo S)
  after_round rest (round gic none) = rest gic
  after_round rest (round gic (some ngi)) = ngi ∷ rest gic
  after_round rest round_panic = []

  -- The rounds of a checker in their order: what each sends through gpuinfoChan, until a panic.
  unfoldable pub run_rounds : String → List (Nvml × ℕ) → HostGpuInfoChecker S → List (NodeGpuInfo S)
  unfolding check_round after_round
  run_rounds node_name [] gic = []
  run_rounds node_name ((nvml, now) ∷ rounds) gic =
      after_round (λ g. run_rounds node_name rounds g) (check_round S nvml now node_name gic)

  -- Each is not DeepEqual to the one before it.
  unfoldable pub Changing : Map S.Set → List (NodeGpuInfo S) → Type 0
  Changing last [] = Unit
  Changing last (ngi ∷ sent) =
      (deep_equal_models S last ngi.models ≡ false) × Changing ngi.models sent

  -- The state after a round stands for the last models that were sent.
  unfoldable pub Follows : Map S.Set → Round S → Type 0
  Follows last (round gic none) = gic.model_set_last ≡ last
  Follows last (round gic (some ngi)) =
      (deep_equal_models S last ngi.models ≡ false) × (gic.model_set_last ≡ ngi.models)
  Follows last round_panic = Unit

  Follows-if :
      (b : Bool) (last : Map S.Set) (x y : Round S)
      → (b ≡ true → Follows last x)
      → Follows last y
      → Follows last (if b then x else y)
  Follows-if true last x y p q = p refl
  Follows-if false last x y p q = q

  false_of : (b : Bool) → not b ≡ true → b ≡ false
  false_of b h = ground arith

  notify-Follows :
      (gic : HostGpuInfoChecker S) (c : Checked S) → Follows gic.model_set_last (notify S gic c)
  unfolding notify Follows
  notify-Follows gic (checked ngi cg) =
      let same = deep_equal_models S gic.model_set_last ngi.models in
      Follows-if (not same) gic.model_set_last
        (round (record { model_set_last = ngi.models; ttl_cache_gpu = cg }) (some ngi))
        (round (record gic { ttl_cache_gpu = cg }) none) (λ h. (false_of same h, refl)) refl
  notify-Follows gic (check_failed cg) = refl
  notify-Follows gic check_panic = tt

  pub check_count-Follows :
      (nvml : Nvml) (now : ℕ) (node_name : String) (gic : HostGpuInfoChecker S) (o : Option ℕ)
      → Follows gic.model_set_last (check_count S nvml now node_name gic o)
  unfolding check_count Follows
  check_count-Follows nvml now node_name gic none = refl
  check_count-Follows nvml now node_name gic (some count) =
      notify-Follows gic
        (check_devices S nvml now node_name count 0 (empty_info S) gic.ttl_cache_gpu)

  after_round-Changing :
      (rest : HostGpuInfoChecker S → List (NodeGpuInfo S)) (last : Map S.Set) (r : Round S)
      → ((g : HostGpuInfoChecker S) → Changing g.model_set_last (rest g))
      → Follows last r
      → Changing last (after_round rest r)
  unfolding after_round Changing Follows
  after_round-Changing rest last (round gic none) h f = rw⁻¹ f (h gic)
  after_round-Changing rest last (round gic (some ngi)) h (d, f) = (d, rw⁻¹ f (h gic))
  after_round-Changing rest last round_panic h f = tt

  -- Over any rounds of a checker, whatever NVML answers, the models that are sent are never
  -- DeepEqual to those that were sent before them, and the first are not DeepEqual to those that the
  -- checker starts with.
  pub run_rounds-Changing :
      (node_name : String) (rounds : List (Nvml × ℕ)) (gic : HostGpuInfoChecker S)
      → Changing gic.model_set_last (run_rounds node_name rounds gic)
  unfolding run_rounds Changing check_round
  run_rounds-Changing node_name [] gic = tt
  run_rounds-Changing node_name ((nvml, now) ∷ rounds) gic =
      after_round-Changing (λ g. run_rounds node_name rounds g) gic.model_set_last
        (check_round S nvml now node_name gic) (λ g. run_rounds-Changing node_name rounds g)
        (check_count-Follows nvml now node_name gic nvml.device_get_count)
