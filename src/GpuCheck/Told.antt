-- ===== src/GpuCheck/Told.antt =====
-- What the controller knows after the rounds of the gpu check.
use nvidia_gpu_scheduler.Prelude.{
  ℕ, ◌≡◌, refl, sym, ap, ◌∙◌, Bool, Bool-cases, inl, inr, true, false, not, List, [], ◌∷◌, ◌++◌,
  lookup, keys, Option, none, some, String, Map, arith,
}
use nvidia_gpu_scheduler.Sets.{StringSet}
use nvidia_gpu_scheduler.Tables.{TtlCacheGpu}
use nvidia_gpu_scheduler.Report.{NodeGpuInfo}
use nvidia_gpu_scheduler.GpuCheck.{
  Nvml, HostGpuInfoChecker, checked, Round, round, round_panic, notify, check_count, check_round,
  deep_equal_models, same_at, same_set, empty_info, check_devices,
}
use nvidia_gpu_scheduler.GpuCheck.Notices.{after_round, run_rounds, Follows, check_count-Follows}

module _ (S : StringSet) where
  same_set_refl : (o : Option S.Set) → same_set S o o ≡ true
  unfolding same_set
  same_set_refl none = refl
  same_set_refl (some s) = (S.deep_equal_iff s s).1 (λ d. refl)

  same_at_refl : (m : Map S.Set) (ks : List String) → same_at S m m ks ≡ true
  unfolding same_at
  same_at_refl m [] = refl
  same_at_refl m (k ∷ ks) = rw (same_set_refl (lookup k m), same_at_refl m ks) refl

  deep_equal_models_refl : (m : Map S.Set) → deep_equal_models S m m ≡ true
  unfolding deep_equal_models
  deep_equal_models_refl m = same_at_refl m (keys m ++ keys m)

  then_rounds :
      (HostGpuInfoChecker S → Option (HostGpuInfoChecker S))
      → Round S
      → Option (HostGpuInfoChecker S)
  then_rounds rest (round gic sent) = rest gic
  then_rounds rest round_panic = none

  -- The checker after rounds, of which none panics.
  unfoldable pub after_rounds :
      String → List (Nvml × ℕ) → HostGpuInfoChecker S → Option (HostGpuInfoChecker S)
  unfolding check_round then_rounds
  after_rounds node_name [] gic = some gic
  after_rounds node_name ((nvml, now) ∷ rounds) gic =
      then_rounds (λ g. after_rounds node_name rounds g) (check_round S nvml now node_name gic)

  -- The models that were sent last, if any were.
  abbrev pub last_told : Map S.Set → List (NodeGpuInfo S) → Map S.Set
  last_told m [] = m
  last_told m (ngi ∷ sent) = last_told ngi.models sent

  IsTold : Map S.Set → Map S.Set → Round S → Type 0
  IsTold m last r = deep_equal_models S (last_told last (after_round S (λ g. []) r)) m ≡ true

  was_true : (b : Bool) → not b ≡ false → b ≡ true
  was_true b h = ground arith

  notify-IsTold :
      (gic : HostGpuInfoChecker S) (ngi : NodeGpuInfo S) (cg : TtlCacheGpu)
      → IsTold ngi.models gic.model_set_last (notify S gic (checked ngi cg))
  unfolding notify IsTold after_round
  notify-IsTold gic ngi cg =
      elim (Bool-cases (not (deep_equal_models S gic.model_set_last ngi.models))) [
        | inl h ↦ rw h (deep_equal_models_refl ngi.models)
        | inr h ↦ rw h (was_true (deep_equal_models S gic.model_set_last ngi.models) h)
      ]

  count-IsTold :
      (nvml : Nvml) (now count : ℕ) (node_name : String) (gic : HostGpuInfoChecker S) (o : Option ℕ)
      (ngi : NodeGpuInfo S) (cg : TtlCacheGpu)
      → o ≡ some count
      → check_devices S nvml now node_name count 0 (empty_info S) gic.ttl_cache_gpu ≡ checked ngi cg
      → IsTold ngi.models gic.model_set_last (check_count S nvml now node_name gic o)
  unfolding check_count
  count-IsTold nvml now count node_name gic o ngi cg h e = rw (h, e) (notify-IsTold gic ngi cg)

  -- What holds of the models that the rest of the rounds sends last holds of all rounds.
  last_told-after_round :
      (m last : Map S.Set) (run : HostGpuInfoChecker S → List (NodeGpuInfo S))
      (rest : HostGpuInfoChecker S → Option (HostGpuInfoChecker S)) (g : HostGpuInfoChecker S)
      (r : Round S)
      → ((h : HostGpuInfoChecker S)
          → rest h ≡ some g
          → deep_equal_models S (last_told h.model_set_last (run h)) m ≡ true)
      → Follows S last r
      → then_rounds rest r ≡ some g
      → deep_equal_models S (last_told last (after_round S run r)) m ≡ true
  unfolding after_round Follows then_rounds
  last_told-after_round m last run rest g (round h none) k f e =
      ap (λ x. deep_equal_models S (last_told x (run h)) m) (sym f) ∙ k h e
  last_told-after_round m last run rest g (round h (some ngi)) k (d, f) e =
      ap (λ x. deep_equal_models S (last_told x (run h)) m) (sym f) ∙ k h e
  last_told-after_round m last run rest g round_panic k f e = cc

  -- If none of the rounds before panics, and then comes a round in which the driver tells the number
  -- of its devices and every one of them becomes known, the models that the checker has sent last,
  -- or those that it began with if it has sent none, are DeepEqual to what that round found: no change
  -- is left unsent.
  pub last_told-run_rounds :
      (nvml : Nvml) (now count : ℕ) (node_name : String) (rounds : List (Nvml × ℕ))
      (gic g : HostGpuInfoChecker S) (ngi : NodeGpuInfo S) (cg : TtlCacheGpu)
      → after_rounds node_name rounds gic ≡ some g
      → nvml.device_get_count ≡ some count
      → check_devices S nvml now node_name count 0 (empty_info S) g.ttl_cache_gpu ≡ checked ngi cg
      → deep_equal_models S
          (last_told gic.model_set_last (run_rounds S node_name (rounds ++ (nvml, now) ∷ []) gic))
          ngi.models
        ≡ true
  unfolding run_rounds after_rounds check_round IsTold
  last_told-run_rounds nvml now count node_name [] gic g ngi cg a h e =
      let same : gic ≡ g = cc in
      count-IsTold nvml now count node_name gic nvml.device_get_count ngi cg h (
        ap (λ x. check_devices S nvml now node_name count 0 (empty_info S) x.ttl_cache_gpu) same
        ∙ e)
  last_told-run_rounds nvml now count node_name ((driver, time) ∷ rounds) gic g ngi cg a h e =
      last_told-after_round ngi.models gic.model_set_last
        (λ x. run_rounds S node_name (rounds ++ (nvml, now) ∷ []) x)
        (λ x. after_rounds node_name rounds x) g (check_round S driver time node_name gic)
        (λ x b. last_told-run_rounds nvml now count node_name rounds x g ngi cg b h e)
        (check_count-Follows S driver time node_name gic driver.device_get_count) a
