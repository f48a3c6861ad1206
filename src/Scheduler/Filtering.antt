-- ===== src/Scheduler/Filtering.antt =====
-- What NewFramework and RunFilterPlugins do.
use mathlib.Core.List.{append_assoc, append-nil}
use nvidia_gpu_scheduler.Prelude.{
  ◌≡◌, refl, sym, ap, ◌∙◌, ◌⊎◌, inl, inr, true, false, List, [], ◌∷◌, ◌++◌, Option, none, some,
  String, Bool-cases,
}
use nvidia_gpu_scheduler.Api.{Pod}
use nvidia_gpu_scheduler.NodeCache.{GpuNodeCache}
use nvidia_gpu_scheduler.Scheduler.{
  Status, accepted, Filter, Score, Plugin, FilterPlugin, ScorePlugin, Made, made, failed, Registry,
  Framework, make_plugins, add_filter_plugins, add_score_plugins, append_filter, append_score,
  new_framework, run_filters, run_filter_plugins,
}

-- The plugins of a registry whose factories all succeed.
abbrev pub Builds : Registry → List Plugin → Type 0
Builds [] pls = pls ≡ []
Builds ((k, m) ∷ r) pls =
    (p : Plugin) × (rest : List Plugin) × (m ≡ made p) × (pls ≡ p ∷ rest) × Builds r rest

-- The first factory of a registry that fails, after some that succeed, fails with this error.
abbrev pub FailsFirst : Registry → String → Type 0
FailsFirst [] e = ⊥
FailsFirst ((k, m) ∷ r) e = (m ≡ failed e) ⊎ ((p : Plugin) × (m ≡ made p) × FailsFirst r e)

abbrev pub filter_of : Option Filter → String → List FilterPlugin
filter_of none name = []
filter_of (some f) name = record { name = name; filter = f } ∷ []

abbrev pub score_of : Option Score → String → List ScorePlugin
score_of none name = []
score_of (some f) name = record { name = name; score = f } ∷ []

-- The plugins that implement an extension point, in the order of the registry.
abbrev pub filters_of : List Plugin → List FilterPlugin
filters_of [] = []
filters_of (p ∷ ps) = filter_of p.filter p.name ++ filters_of ps

abbrev pub scores_of : List Plugin → List ScorePlugin
scores_of [] = []
scores_of (p ∷ ps) = score_of p.score p.name ++ scores_of ps

append_filter_lem :
    (f : Option Filter) (name : String) (acc : List FilterPlugin)
    → append_filter f name acc ≡ acc ++ filter_of f name
unfolding append_filter
append_filter_lem none name acc = sym (append-nil acc)
append_filter_lem (some f) name acc = refl

append_score_lem :
    (f : Option Score) (name : String) (acc : List ScorePlugin)
    → append_score f name acc ≡ acc ++ score_of f name
unfolding append_score
append_score_lem none name acc = sym (append-nil acc)
append_score_lem (some f) name acc = refl

add_filter_plugins_lem :
    (acc : List FilterPlugin) (pls : List Plugin)
    → add_filter_plugins acc pls ≡ acc ++ filters_of pls
unfolding add_filter_plugins
add_filter_plugins_lem acc [] = sym (append-nil acc)
add_filter_plugins_lem acc (p ∷ ps) =
    rw
      (
        append_filter_lem p.filter p.name acc,
        add_filter_plugins_lem (acc ++ filter_of p.filter p.name) ps,
      )
      (append_assoc acc (filter_of p.filter p.name) (filters_of ps))

add_score_plugins_lem :
    (acc : List ScorePlugin) (pls : List Plugin) → add_score_plugins acc pls ≡ acc ++ scores_of pls
unfolding add_score_plugins
add_score_plugins_lem acc [] = sym (append-nil acc)
add_score_plugins_lem acc (p ∷ ps) =
    rw
      (
        append_score_lem p.score p.name acc,
        add_score_plugins_lem (acc ++ score_of p.score p.name) ps,
      )
      (append_assoc acc (score_of p.score p.name) (scores_of ps))

-- What the loop over the factories comes to, from a list that it has gathered.
data Gathers (r : Registry) (acc : List Plugin) (m : Made (List Plugin)) : Type 0 where
  all_made : (pls : List Plugin) → Builds r pls → m ≡ made (acc ++ pls) → Gathers r acc m
  one_failed : (e : String) → FailsFirst r e → m ≡ failed e → Gathers r acc m

make_plugins-Gathers : (r : Registry) (acc : List Plugin) → Gathers r acc (make_plugins r acc)
unfolding make_plugins
make_plugins-Gathers [] acc = all_made [] refl (ap made (sym (append-nil acc)))
make_plugins-Gathers ((k, failed e) ∷ r) acc = one_failed e (inl refl) refl
make_plugins-Gathers ((k, made p) ∷ r) acc = extend (make_plugins-Gathers r (acc ++ p ∷ []))
  where
    extend :
        Gathers r (acc ++ p ∷ []) (make_plugins r (acc ++ p ∷ []))
        → Gathers ((k, made p) ∷ r) acc (make_plugins r (acc ++ p ∷ []))
    extend (all_made pls b h) =
        all_made (p ∷ pls) (p, pls, refl, refl, b) (h ∙ ap made (append_assoc acc (p ∷ []) pls))
    extend (one_failed e f h) = one_failed e (inr (p, refl, f)) h

-- The framework that holds some plugins, each at the extension points that it implements.
pub framework_of : Registry → List Plugin → Framework
framework_of r pls = record {
  registry = r;
  filter_plugins = filters_of pls;
  score_plugins = scores_of pls;
}

pub data FrameworkOutcome (r : Registry) (m : Made Framework) : Type 0 where
  built : (pls : List Plugin) → Builds r pls → m ≡ made (framework_of r pls) → FrameworkOutcome r m
  broken : (e : String) → FailsFirst r e → m ≡ failed e → FrameworkOutcome r m

-- NewFramework either builds every plugin of the registry, and puts each at exactly the extension
-- points that it implements, in order, or returns the error of the first factory that fails.
pub new_framework_outcome : (r : Registry) → FrameworkOutcome r (new_framework r)
unfolding new_framework framework_of
new_framework_outcome r = finish (make_plugins-Gathers r [])
  where
    finish : Gathers r [] (make_plugins r []) → FrameworkOutcome r (new_framework r)
    finish (all_made pls b h) =
        built pls b
          (rw (h, new_framework) (rw (add_filter_plugins_lem [] pls, add_score_plugins_lem [] pls)))
    finish (one_failed e f h) = broken e f (rw (h, new_framework))

module _ (cache : GpuNodeCache) (pod : Pod) (node : String) where
  abbrev pub AllAccept : List FilterPlugin → Type 0
  AllAccept [] = Unit {0}
  AllAccept (p ∷ ps) = ((p.filter cache pod node).is_accepted ≡ true) × AllAccept ps

  pub data FilterOutcome (pls : List FilterPlugin) (s : Status) : Type 0 where
    all_accept : AllAccept pls → s ≡ accepted → FilterOutcome pls s
    first_refusal :
        (before after : List FilterPlugin) (p : FilterPlugin)
        → pls ≡ before ++ p ∷ after
        → AllAccept before
        → (p.filter cache pod node).is_accepted ≡ false
        → s ≡ p.filter cache pod node
        → FilterOutcome pls s

  run_filters_outcome :
      (pls : List FilterPlugin) → FilterOutcome pls (run_filters pls cache pod node)
  unfolding run_filters
  run_filters_outcome [] = all_accept tt refl
  run_filters_outcome (p ∷ ps) = elim (Bool-cases (p.filter cache pod node).is_accepted) [
    | inr no_pass ↦ first_refusal [] ps p refl tt no_pass (rw no_pass)
    | inl pass ↦ rw pass (extend pass (run_filters_outcome ps))
  ]
    where
      extend :
          (p.filter cache pod node).is_accepted ≡ true
          → FilterOutcome ps (run_filters ps cache pod node)
          → FilterOutcome (p ∷ ps) (run_filters ps cache pod node)
      extend pass (all_accept a h) = all_accept (pass, a) h
      extend pass (first_refusal before after q e a b h) =
          first_refusal (p ∷ before) after q (ap (◌∷◌ p) e) (pass, a) b h

  -- RunFilterPlugins accepts a node exactly where every filter plugin does, and otherwise returns the
  -- status of the first plugin that refuses it.
  pub run_filter_plugins_outcome :
      (f : Framework) → FilterOutcome f.filter_plugins (run_filter_plugins f cache pod node)
  unfolding run_filter_plugins
  run_filter_plugins_outcome f = run_filters_outcome f.filter_plugins
