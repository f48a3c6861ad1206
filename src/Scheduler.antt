-- ===== src/Scheduler.antt =====
-- The scheduler framework: pkg/gpuserver/scheduler/framework/interface.go and its runtime.
-- An error is the reason that the code formats into it. Plugins read the shared GpuNodeCache, which
-- stands as an argument. `workqueue.ParallelizeUntil` is not the program's: the order in which it
-- runs the pieces is an argument.
pub mod Filtering
pub mod Rows
pub mod Scoring
use nvidia_gpu_scheduler.Prelude.{
  ℕ, zero, suc, Bool, true, false, List, [], ◌∷◌, ◌++◌, Option, none, some, String, Map, lookup,
  insert, length, get_elem?, set, replicate, map, if◌then◌else◌,
}
use nvidia_gpu_scheduler.Words.{add_i64}
use nvidia_gpu_scheduler.Api.{Pod}
use nvidia_gpu_scheduler.NodeCache.{GpuNodeCache}

pub data Reason : Type 0 where
  -- node
  node_not_exist : String → Reason
  -- node
  node_not_healthy : String → Reason
  -- node, requested, available
  too_few : String → ℕ → ℕ → Reason
  -- node, model
  model_not_exist : String → String → Reason

pub record Status : Type 0 where
  pub is_accepted : Bool
  pub err : Option Reason

abbrev pub accepted : Status
accepted = record { is_accepted = true; err = none }

abbrev pub refused : Reason → Status
refused r = record { is_accepted = false; err = some r }

abbrev pub Filter : Type 0
Filter = GpuNodeCache → Pod → String → Status

abbrev pub Score : Type 0
Score = GpuNodeCache → Pod → String → ℕ × Status

-- A plugin, with the interfaces that its type implements, as reflection finds them.
pub record Plugin : Type 0 where
  pub name : String
  pub filter : Option Filter
  pub score : Option Score

pub record FilterPlugin : Type 0 where
  pub name : String
  pub filter : Filter

pub record ScorePlugin : Type 0 where
  pub name : String
  pub score : Score

-- A factory returns a plugin, or an error.
pub data Made (A : Type 0) : Type 0 where
  made : A → Made A
  failed : String → Made A

abbrev pub Registry : Type 0
Registry = Map (Made Plugin)

pub record Framework : Type 0 where
  pub registry : Registry
  pub filter_plugins : List FilterPlugin
  pub score_plugins : List ScorePlugin

-- The loop over the factories, which stops at the first error.
unfoldable pub make_plugins : Registry → List Plugin → Made (List Plugin)
make_plugins [] plugins_list = made plugins_list
make_plugins ((k, made plugin) ∷ r) plugins_list = make_plugins r (plugins_list ++ plugin ∷ [])
make_plugins ((k, failed e) ∷ r) plugins_list = failed e

pub append_filter : Option Filter → String → List FilterPlugin → List FilterPlugin
append_filter none name plugins = plugins
append_filter (some f) name plugins = plugins ++ record { name = name; filter = f } ∷ []

pub append_score : Option Score → String → List ScorePlugin → List ScorePlugin
append_score none name plugins = plugins
append_score (some f) name plugins = plugins ++ record { name = name; score = f } ∷ []

-- addPluginList at each of the two extension points.
unfoldable pub add_filter_plugins : List FilterPlugin → List Plugin → List FilterPlugin
unfolding append_filter
add_filter_plugins plugins [] = plugins
add_filter_plugins plugins (pl ∷ pls) =
    add_filter_plugins (append_filter pl.filter pl.name plugins) pls

unfoldable pub add_score_plugins : List ScorePlugin → List Plugin → List ScorePlugin
unfolding append_score
add_score_plugins plugins [] = plugins
add_score_plugins plugins (pl ∷ pls) = add_score_plugins (append_score pl.score pl.name plugins) pls

unfoldable pub new_framework : Registry → Made Framework
unfolding make_plugins add_filter_plugins add_score_plugins
new_framework r = elim (make_plugins r []) [
  | failed e ↦ failed e
  | made plugins_list ↦ made (record {
    registry = r;
    score_plugins = add_score_plugins [] plugins_list;
    filter_plugins = add_filter_plugins [] plugins_list;
  })
]

unfoldable pub run_filters : List FilterPlugin → Filter
run_filters [] cache pod node = accepted
run_filters (pl ∷ pls) cache pod node =
    let status = pl.filter cache pod node in
    let rest = run_filters pls cache pod node in if status.is_accepted then rest else status

unfoldable pub run_filter_plugins : Framework → Filter
unfolding run_filters
run_filter_plugins f = run_filters f.filter_plugins

pub record HostPriority : Type 0 where
  pub host : String
  pub score : ℕ

-- PluginToHostPriorityList
abbrev pub Table : Type 0
Table = Map (List HostPriority)

-- The zero value that `make` fills a list with.
abbrev pub no_priority : HostPriority
no_priority = record { host = ""; score = 0 }

unfoldable pub new_table : List ScorePlugin → ℕ → Table → Table
unfolding insert
new_table [] n t = t
new_table (pl ∷ pls) n t = new_table pls n (insert pl.name (replicate n no_priority) t)

abbrev pub row_of : Option (List HostPriority) → List HostPriority
row_of none = []
row_of (some row) = row

-- pluginToNodeScores[pl.Name()][i] = …
unfoldable pub write_score : Table → String → ℕ → HostPriority → Table
unfolding lookup insert
write_score t name i hp = insert name (set (row_of (lookup name t)) i hp) t

-- The piece of work for one node. A refused score is written all the same.
unfoldable pub score_node : List ScorePlugin → GpuNodeCache → Pod → ℕ → String → Table → Table
unfolding write_score
score_node [] cache pod i node t = t
score_node (pl ∷ pls) cache pod i node t =
    let score = (pl.score cache pod node).0 in
    score_node pls cache pod i node
      (write_score t pl.name i (record { host = node; score = score }))

abbrev score_piece : List ScorePlugin → GpuNodeCache → Pod → ℕ → Option String → Table → Table
score_piece pls cache pod i none t = t
score_piece pls cache pod i (some node) t = score_node pls cache pod i node t

-- The pieces in the order in which the workers come to write.
unfoldable pub score_nodes :
    List ScorePlugin → GpuNodeCache → Pod → List String → List ℕ → Table → Table
unfolding score_node
score_nodes pls cache pod nodes [] t = t
score_nodes pls cache pod nodes (i ∷ order) t =
    score_nodes pls cache pod nodes order (score_piece pls cache pod i (get_elem? nodes i) t)

abbrev pub score_at : Option HostPriority → ℕ
score_at none = 0
score_at (some hp) = hp.score

-- The loop over the plugins' rows for node i.
unfoldable pub sum_scores : Table → ℕ → ℕ → ℕ
sum_scores [] i acc = acc
sum_scores ((name, row) ∷ t) i acc = sum_scores t i (add_i64 acc (score_at (get_elem? row i)))

unfoldable pub summarize : Table → ℕ → List String → List HostPriority
unfolding sum_scores
summarize t i [] = []
summarize t i (node ∷ nodes) =
    record { host = node; score = sum_scores t i 0 } ∷ summarize t (suc i) nodes

unfoldable pub run_score_plugins :
    Framework → GpuNodeCache → Pod → List String → List ℕ → List HostPriority
unfolding new_table score_nodes summarize
run_score_plugins f cache pod nodes order =
    summarize
      (score_nodes f.score_plugins cache pod nodes order
        (new_table f.score_plugins (length nodes) []))
      0 nodes
