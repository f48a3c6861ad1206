-- ===== src/Extender/Handlers/Replies.antt =====
-- What the scheduler's requests are answered with.
use mathlib.Core.List.{Perm, Permᴰ}
use mathlib.Core.Bool.{Bool-set}
use mathlib.Core.Logic.{∥∥₁_elim}
use nvidia_gpu_scheduler.Prelude.{
  suc, ◌<◌, ◌≡◌, refl, ap, ◌∙◌, Bool, true, false, not, ◌||◌, ◌&&◌, List, [], ◌∷◌, Option, none,
  some, String, eq_iff, Map, keys, lookup, lookup-insert, insert, length, has_text, keep, arith,
  if◌then◌else◌,
}
use nvidia_gpu_scheduler.Sets.{Distinct}
use nvidia_gpu_scheduler.Api.{Pod}
use nvidia_gpu_scheduler.NodeCache.{GpuNodeCache}
use nvidia_gpu_scheduler.Scheduler.{Framework}
use nvidia_gpu_scheduler.Scheduler.Rows.{names_of}
use nvidia_gpu_scheduler.Scheduler.Scoring.{priorities, run_score_plugins-priorities}
use nvidia_gpu_scheduler.Extender.Workers.{feasible, accepted_of}
use nvidia_gpu_scheduler.Extender.Permutation.{feasible-perm}
use nvidia_gpu_scheduler.Extender.Handlers.{
  ParallelizeUntil, MetaVictims, all_pods, ok, panicked, can_format, nil_or, accepts, pieces_of,
  select_victims, post_schedule_filter_handler, post_schedule_prioritize_handler,
  post_schedule_preempt_handler,
}

has_text-permᴰ : {xs ys : List String} (d : String) → Permᴰ xs ys → has_text xs d ≡ has_text ys d
has_text-permᴰ d Permᴰ.nil = refl
has_text-permᴰ d (Permᴰ.cons e p) = ground (arith, has_text-permᴰ d p)
has_text-permᴰ d (Permᴰ.swap e f) = ground arith
has_text-permᴰ d (Permᴰ.trans p q) = has_text-permᴰ d p ∙ has_text-permᴰ d q

-- The order of a list does not matter to what stands in it.
pub has_text-perm : {xs ys : List String} (d : String) → Perm xs ys → has_text xs d ≡ has_text ys d
has_text-perm d p = ∥∥₁_elim p (Bool-set _ _) (has_text-permᴰ d)

pub has_text-keep :
    (p : String → Bool) (xs : List String) (d : String)
    → has_text (keep p xs) d ≡ (has_text xs d && p d)
has_text-keep p [] d = refl
has_text-keep p (x ∷ xs) d = ground (arith, eq_iff x d, has_text-keep p xs d)

accepted_of-pieces :
    (fw : Framework) (cache : GpuNodeCache) (pod : Pod) (nodes : List String)
    → accepted_of (pieces_of fw cache pod nodes) ≡ keep (accepts fw cache pod) nodes
accepted_of-pieces fw cache pod [] = refl
accepted_of-pieces fw cache pod (n ∷ ns) = ground (arith, accepted_of-pieces fw cache pod ns)

length-pieces :
    (fw : Framework) (cache : GpuNodeCache) (pod : Pod) (nodes : List String)
    → length (pieces_of fw cache pod nodes) ≡ length nodes
length-pieces fw cache pod [] = refl
length-pieces fw cache pod (n ∷ ns) = ap suc (length-pieces fw cache pod ns)

lookup-select_victims :
    (victims : Map (Option MetaVictims)) (nodes : List String) (result : Map (Option MetaVictims))
    (n : String)
    → lookup n (select_victims victims nodes result)
      ≡ (if has_text nodes n then some (nil_or (lookup n victims)) else lookup n result)
unfolding select_victims
lookup-select_victims victims [] result n = refl
lookup-select_victims victims (m ∷ nodes) result n = ground (
  arith,
  eq_iff m n,
  lookup-select_victims victims nodes (insert m (nil_or (lookup m victims)) result) n,
  lookup-insert m n (nil_or (lookup m victims)) result,
)

-- Some pointer of the list is null.
abbrev any_null : List (Option String) → Bool
any_null [] = false
any_null (none ∷ pods) = true
any_null (some uid ∷ pods) = any_null pods

-- The victims of some node are null, or one of their pods is.
abbrev pub has_null : Map (Option MetaVictims) → Bool
has_null [] = false
has_null ((node, none) ∷ victims) = true
has_null ((node, some v) ∷ victims) = any_null v.pods || has_null victims

all_pods-any_null : (pods : List (Option String)) → all_pods pods ≡ not (any_null pods)
unfolding all_pods
all_pods-any_null [] = refl
all_pods-any_null (none ∷ pods) = refl
all_pods-any_null (some uid ∷ pods) = all_pods-any_null pods

can_format-has_null :
    (victims : Map (Option MetaVictims)) → can_format victims ≡ not (has_null victims)
unfolding can_format
can_format-has_null [] = refl
can_format-has_null ((node, none) ∷ victims) = refl
can_format-has_null ((node, some v) ∷ victims) =
    ground (arith, all_pods-any_null v.pods, can_format-has_null victims)

reply_if :
    {B : Type 0} (b c : Bool) (x y : B) → b ≡ not c → (if b then x else y) ≡ (if c then y else x)
reply_if b c x y h = ground arith

module _ (P : ParallelizeUntil) (fw : Framework) (cache : GpuNodeCache) (pod : Pod) where
  feasible-keep :
      (nodes : List String)
      → length nodes < 2147483648
      → Perm
          (feasible (P.finish (pieces_of fw cache pod nodes)))
          (keep (accepts fw cache pod) nodes)
  feasible-keep nodes h = rw (accepted_of-pieces fw cache pod nodes) at (
      feasible-perm (pieces_of fw cache pod nodes) (rw (length-pieces fw cache pod nodes) h)
        (P.finish-Run (pieces_of fw cache pod nodes))
        (P.finish-IsDone (pieces_of fw cache pod nodes)))

  -- A filter request with a pod and fewer than 2 ^ 31 node names is answered, and the answer holds
  -- exactly the named nodes that the filter plugins accept, each as often as it was named, in some
  -- order.
  pub filter_reply :
      (nodes : List String)
      → length nodes < 2147483648
      → (names : List String) × (post_schedule_filter_handler P fw cache
            (some (record { pod = some pod; node_names = some nodes }))
          ≡ ok names)
        × Perm names (keep (accepts fw cache pod) nodes)
  unfolding post_schedule_filter_handler
  filter_reply nodes h =
      (feasible (P.finish (pieces_of fw cache pod nodes)), refl, feasible-keep nodes h)

  -- A prioritize request with a pod and node names is answered with one entry for each node, in the
  -- order of the request, with the sum of the scores that the plugins give it, if the score plugins
  -- have different names.
  pub prioritize_reply :
      (nodes : List String)
      → Distinct (names_of fw.score_plugins)
      → post_schedule_prioritize_handler P fw cache
          (some (record { pod = some pod; node_names = some nodes }))
        ≡ ok (priorities cache pod fw.score_plugins nodes)
  unfolding post_schedule_prioritize_handler
  prioritize_reply nodes d = ap ok (
      run_score_plugins-priorities fw cache pod nodes (P.order (length nodes)) d
        (P.order_covers (length nodes)))

  -- A preempt request with a pod and fewer than 2 ^ 31 nodes panics if the victims of a node, or one
  -- of their pods, are null, and else is answered with exactly the entries whose node the filter
  -- plugins accept, each with the victims that it came with.
  pub preempt_reply :
      (victims : Map (Option MetaVictims))
      → length (keys victims) < 2147483648
      → (result : Map (Option MetaVictims)) × (post_schedule_preempt_handler P fw cache
            (some (record { pod = some pod; node_name_to_meta_victims = victims }))
          ≡ (if has_null victims then panicked else ok result))
        × ((n : String)
            → lookup n result ≡ (
                if has_text (keys victims) n && accepts fw cache pod n
                then some (nil_or (lookup n victims))
                else none))
  unfolding post_schedule_preempt_handler
  preempt_reply victims h = (
    select_victims victims (feasible (P.finish (pieces_of fw cache pod (keys victims)))) [],
    reply_if (can_format victims) (has_null victims) _ _ (can_format-has_null victims),
    λ n.
        rw
          (lookup-select_victims victims
            (feasible (P.finish (pieces_of fw cache pod (keys victims)))) [] n)
          (rw
            (
              has_text-perm n (feasible-keep (keys victims) h),
              has_text-keep (accepts fw cache pod) (keys victims) n,
            )
            (unfold lookup in refl)),
  )
