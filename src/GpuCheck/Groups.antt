-- ===== src/GpuCheck/Groups.antt =====
-- What a round that knows every device tells of them.
use nvidia_gpu_scheduler.Prelude.{
  ◌≡◌, refl, sym, ap, ◌∙◌, Bool, true, false, ◌&&◌, ◌||◌, [], ◌∷◌, Option, none, some, String,
  str_eq, eq_iff, lookup, lookup-insert, arith, if◌then◌else◌,
}
use nvidia_gpu_scheduler.Sets.{StringSet}
use nvidia_gpu_scheduler.Api.{GpuInfo}
use nvidia_gpu_scheduler.ModelName.{normalize_model_name}
use nvidia_gpu_scheduler.Report.{NodeGpuInfo}
use nvidia_gpu_scheduler.Tables.{TtlCacheGpu, get_cache_gpu_info_ignore_ttl}
use nvidia_gpu_scheduler.GpuCheck.Cached.{Keeps}
use nvidia_gpu_scheduler.GpuCheck.{
  add_device, add_under, Checked, checked, check_failed, check_panic, updated, set_or_new,
  empty_info,
}

module _ (S : StringSet) where
  abbrev pub has_in : Option S.Set → String → Bool
  has_in none d = false
  has_in (some s) d = S.has s d

  -- The device is in the model's set.
  unfoldable pub in_model : NodeGpuInfo S → String → String → Bool
  in_model ngi model did = has_in (lookup model ngi.models) did

  pub is_model : Option GpuInfo → String → Bool
  is_model none model = false
  is_model (some g) model = str_eq (normalize_model_name g.model) model

  -- The device has been found, with a name that is normalised to the model's.
  unfoldable pub is_of_model : NodeGpuInfo S → String → String → Bool
  is_of_model ngi model did = is_model (lookup did ngi.gpu_infos) model

  -- The models' sets hold the devices that have been found, each under its own model.
  or_false : (b : Bool) → (b || false) ≡ b
  or_false b = ground arith

  or_same : (b : Bool) → (b || b) ≡ b
  or_same b = ground arith

  and_true : (b : Bool) → (b && true) ≡ b
  and_true b = ground arith

  and_false : (b : Bool) → (b && false) ≡ false
  and_false b = ground arith

  or_else : GpuInfo → Option GpuInfo → GpuInfo
  or_else g none = g
  or_else g (some x) = x

  unfoldable pub Grouped : NodeGpuInfo S → Type 0
  Grouped ngi = (m d : String) → in_model ngi m d ≡ is_of_model ngi m d

  -- What has been found stands in the cache.
  unfoldable pub Known : NodeGpuInfo S → TtlCacheGpu → Type 0
  Known ngi cg =
      (d : String) (g : GpuInfo)
      → lookup d ngi.gpu_infos ≡ some g
      → get_cache_gpu_info_ignore_ttl d cg ≡ some g

  unfoldable pub Good : Checked S → Type 0
  unfolding Grouped Known
  Good (checked ngi cg) = Known ngi cg × Grouped ngi
  Good (check_failed cg) = Unit
  Good check_panic = Unit

  has_in-insert :
      (o : Option S.Set) (did d : String)
      → S.has (S.insert (set_or_new S o) (did ∷ [])) d ≡ (str_eq did d || has_in o d)
  unfolding set_or_new
  has_in-insert none did d = S.has-insert S.new (did ∷ []) d ∙ ground (arith, S.has-new d)
  has_in-insert (some s) did d = S.has-insert s (did ∷ []) d ∙ ground arith

  has_in-if :
      (b : Bool) (s : S.Set) (o : Option S.Set) (d : String)
      → has_in (if b then some s else o) d ≡ (if b then S.has s d else has_in o d)
  has_in-if true s o d = refl
  has_in-if false s o d = refl

  add_under-in :
      (n did : String) (g : GpuInfo) (ngi : NodeGpuInfo S) (m d : String)
      → in_model (add_under S n did g ngi) m d ≡ ((str_eq n m && str_eq did d) || in_model ngi m d)
  unfolding in_model add_under
  add_under-in n did g ngi m d =
      let s = S.insert (set_or_new S (lookup n ngi.models)) (did ∷ []) in
      ap (λ o. has_in o d) (lookup-insert n m s ngi.models)
      ∙ has_in-if (str_eq n m) s (lookup m ngi.models) d
      ∙ rw (has_in-insert (lookup n ngi.models) did d) (ground (arith, eq_iff n m))

  is_model-if :
      (b : Bool) (g : GpuInfo) (o : Option GpuInfo) (m : String)
      → is_model (if b then some g else o) m
        ≡ (if b then str_eq (normalize_model_name g.model) m else is_model o m)
  unfolding is_model
  is_model-if true g o m = refl
  is_model-if false g o m = refl

  add_under-of :
      (n did : String) (g : GpuInfo) (ngi : NodeGpuInfo S) (m d : String)
      → is_of_model (add_under S n did g ngi) m d
        ≡ (if str_eq did d then str_eq (normalize_model_name g.model) m else is_of_model ngi m d)
  unfolding is_of_model add_under
  add_under-of n did g ngi m d =
      ap (λ o. is_model o m) (lookup-insert did d g ngi.gpu_infos)
      ∙ is_model-if (str_eq did d) g (lookup d ngi.gpu_infos) m

  same_model :
      (g : GpuInfo) (o : Option GpuInfo) (m : String)
      → ((x : GpuInfo) → o ≡ some x → x ≡ g)
      → (str_eq (normalize_model_name g.model) m || is_model o m)
        ≡ str_eq (normalize_model_name g.model) m
  unfolding is_model
  same_model g none m same = or_false (str_eq (normalize_model_name g.model) m)
  same_model g (some x) m same =
      ap (λ y. str_eq (normalize_model_name g.model) m || str_eq (normalize_model_name y.model) m)
        (same x refl)
      ∙ or_same (str_eq (normalize_model_name g.model) m)

  merge : (b e q : Bool) → (e ≡ true → (b || q) ≡ b) → ((b && e) || q) ≡ (if e then b else q)
  merge b true q h = rw (and_true b) (h refl)
  merge b false q h = rw (and_false b) refl

  of_same :
      (did : String) (g : GpuInfo) (ngi : NodeGpuInfo S) (m d : String)
      → ((x : GpuInfo) → lookup did ngi.gpu_infos ≡ some x → x ≡ g)
      → str_eq did d ≡ true
      → (str_eq (normalize_model_name g.model) m || is_of_model ngi m d)
        ≡ str_eq (normalize_model_name g.model) m
  unfolding is_of_model
  of_same did g ngi m d same t =
      ap (λ d'. str_eq (normalize_model_name g.model) m || is_model (lookup d' ngi.gpu_infos) m)
        (sym ((eq_iff did d).0 t))
      ∙ same_model g (lookup did ngi.gpu_infos) m same

  -- A device that has been found before is found with what was known of it.
  pub add_device-Grouped :
      (did : String) (g : GpuInfo) (ngi : NodeGpuInfo S)
      → ((x : GpuInfo) → lookup did ngi.gpu_infos ≡ some x → x ≡ g)
      → Grouped ngi
      → Grouped (add_device S did g ngi)
  unfolding add_device Grouped
  add_device-Grouped did g ngi same h m d =
      let n = normalize_model_name g.model in
      add_under-in n did g ngi m d
      ∙ ap (λ b. (str_eq n m && str_eq did d) || b) (h m d)
      ∙ merge (str_eq n m) (str_eq did d) (is_of_model ngi m d) (of_same did g ngi m d same)
      ∙ sym (add_under-of n did g ngi m d)

  pub not_some : (g : GpuInfo) {A : Type 0} → none ≡ some g → A
  not_some g e = ground arith

  kept_if :
      (b : Bool) (did d : String) (g x : GpuInfo) (ngi : NodeGpuInfo S) (cg cg' : TtlCacheGpu)
      → str_eq did d ≡ b
      → get_cache_gpu_info_ignore_ttl did cg' ≡ some g
      → ((e : String) (y : GpuInfo)
          → get_cache_gpu_info_ignore_ttl e cg ≡ some y
          → get_cache_gpu_info_ignore_ttl e cg' ≡ some y)
      → Known ngi cg
      → (if b then some g else lookup d ngi.gpu_infos) ≡ some x
      → get_cache_gpu_info_ignore_ttl d cg' ≡ some x
  unfolding Known
  kept_if true did d g x ngi cg cg' t now_known kept h k =
      ap (λ e. get_cache_gpu_info_ignore_ttl e cg') (sym ((eq_iff did d).0 t)) ∙ now_known ∙ k
  kept_if false did d g x ngi cg cg' t now_known kept h k = kept d x (h d x k)

  pub empty-Grouped : Grouped (empty_info S)
  unfolding Grouped in_model is_of_model is_model lookup
  empty-Grouped m d = refl

  pub empty-Known : (cg : TtlCacheGpu) → Known (empty_info S) cg
  unfolding Known lookup
  empty-Known cg d g e = not_some g e

  pub add_device-Known :
      (did : String) (g : GpuInfo) (ngi : NodeGpuInfo S) (cg cg' : TtlCacheGpu)
      → Keeps did cg (updated g cg')
      → Known ngi cg
      → Known (add_device S did g ngi) cg'
  unfolding add_device add_under Known Keeps
  add_device-Known did g ngi cg cg' (now_known, kept) h d x k =
      kept_if (str_eq did d) did d g x ngi cg cg' refl now_known kept h
        (sym (lookup-insert did d g ngi.gpu_infos) ∙ k)

  pub some_same : (g x : GpuInfo) → some g ≡ some x → g ≡ x
  unfolding or_else
  some_same g x e = ap (or_else g) e
