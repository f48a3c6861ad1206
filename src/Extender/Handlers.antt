-- ===== src/Extender/Handlers.antt =====
-- The three handlers of schedulerserver.go, from the decoded body to the reply. The pointers of a
-- body may be nil, which the code does not test: reading through one panics, and net/http turns that
-- into a failed request. The framework and the cache stay the same during a request.
pub mod Replies
use nvidia_gpu_scheduler.Prelude.{
  ℕ, Bool, true, false, ◌&&◌, if◌then◌else◌, List, [], ◌∷◌, map, Option, none, some, String, Map,
  keys, lookup, insert, length, ◌<◌,
}
use mathlib.Core.List.{Memᴰ}
use nvidia_gpu_scheduler.Api.{Pod}
use nvidia_gpu_scheduler.NodeCache.{GpuNodeCache}
use nvidia_gpu_scheduler.Scheduler.{Framework, HostPriority, run_filter_plugins, run_score_plugins}
use nvidia_gpu_scheduler.Extender.Workers.{Piece, Handling, Run, IsDone, begin, feasible}

-- workqueue.ParallelizeUntil: it returns when every piece of work has run to its end, in some
-- interleaving. `order` is the order in which the pieces of RunScorePlugins write.
pub record ParallelizeUntil : Type 0 where
  pub finish : List Piece → Handling
  pub order : ℕ → List ℕ
  pub finish-Run : (pieces : List Piece) → Run (begin pieces) (finish pieces)
  pub finish-IsDone : (pieces : List Piece) → IsDone (finish pieces)
  pub order_covers : (n i : ℕ) → i < n → Memᴰ i (order n)

pub record ExtenderArgs : Type 0 where
  pub pod : Option Pod
  pub node_names : Option (List String)

pub record MetaVictims : Type 0 where
  -- the UID of each MetaPod
  pub pods : List (Option String)
  pub num_pdb_violations : ℕ

pub record ExtenderPreemptionArgs : Type 0 where
  pub pod : Option Pod
  pub node_name_to_meta_victims : Map (Option MetaVictims)

pub data Reply (A : Type 0) : Type 0 where
  bad_request : Reply A
  panicked : Reply A
  ok : A → Reply A

-- Whether RunFilterPlugins accepts the node.
abbrev pub accepts : Framework → GpuNodeCache → Pod → String → Bool
accepts fw cache pod node = (run_filter_plugins fw cache pod node).is_accepted

abbrev pub pieces_of : Framework → GpuNodeCache → Pod → List String → List Piece
pieces_of fw cache pod nodes = map (λ node. (node, accepts fw cache pod node)) nodes

all_pods : List (Option String) → Bool
all_pods [] = true
all_pods (none ∷ pods) = false
all_pods (some uid ∷ pods) = all_pods pods

-- Whether formatExtenderPreemptionArgs reads through no nil pointer of the map.
can_format : Map (Option MetaVictims) → Bool
unfolding all_pods
can_format [] = true
can_format ((node, none) ∷ victims) = false
can_format ((node, some v) ∷ victims) = all_pods v.pods && can_format victims

-- What a lookup of the map reads: nil for a missing node.
abbrev pub nil_or : Option (Option MetaVictims) → Option MetaVictims
nil_or none = none
nil_or (some v) = v

-- The entries of the victims' map that a list of nodes selects.
unfoldable pub select_victims :
    Map (Option MetaVictims) → List String → Map (Option MetaVictims) → Map (Option MetaVictims)
unfolding lookup insert
select_victims victims [] result = result
select_victims victims (node ∷ nodes) result =
    select_victims victims nodes (insert node (nil_or (lookup node victims)) result)

module _ (P : ParallelizeUntil) (fw : Framework) (cache : GpuNodeCache) where
  filter_args : Option Pod → Option (List String) → Reply (List String)
  filter_args none nodes = panicked
  filter_args (some pod) none = panicked
  filter_args (some pod) (some nodes) = ok (feasible (P.finish (pieces_of fw cache pod nodes)))

  unfoldable pub post_schedule_filter_handler : Option ExtenderArgs → Reply (List String)
  unfolding filter_args feasible
  post_schedule_filter_handler none = bad_request
  post_schedule_filter_handler (some a) = filter_args a.pod a.node_names

  prioritize_args : Option Pod → Option (List String) → Reply (List HostPriority)
  prioritize_args none nodes = panicked
  prioritize_args (some pod) none = panicked
  prioritize_args (some pod) (some nodes) =
      ok (run_score_plugins fw cache pod nodes (P.order (length nodes)))

  unfoldable pub post_schedule_prioritize_handler : Option ExtenderArgs → Reply (List HostPriority)
  unfolding prioritize_args run_score_plugins
  post_schedule_prioritize_handler none = bad_request
  post_schedule_prioritize_handler (some a) = prioritize_args a.pod a.node_names

  preempt_args : Map (Option MetaVictims) → Option Pod → Reply (Map (Option MetaVictims))
  preempt_args victims none = panicked
  preempt_args victims (some pod) =
      if can_format victims
      then ok
          (select_victims victims (feasible (P.finish (pieces_of fw cache pod (keys victims)))) [])
      else panicked

  unfoldable pub post_schedule_preempt_handler :
      Option ExtenderPreemptionArgs → Reply (Map (Option MetaVictims))
  unfolding preempt_args select_victims feasible can_format
  post_schedule_preempt_handler none = bad_request
  post_schedule_preempt_handler (some a) = preempt_args a.node_name_to_meta_victims a.pod
