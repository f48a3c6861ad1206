-- ===== src/Scheduler/Scoring.antt =====
-- What RunScorePlugins returns.
use mathlib.Core.List.{Memᴰ, append-nil, append_assoc}
use native.Mathlib.Decide.{ℕ_discrete}
use native.Mathlib.Nat.{add-zero, add-suc, suc-add, zero-add}
use nvidia_gpu_scheduler.Prelude.{
  ℕ, zero, suc, ◌+◌, ◌<◌, ◌≡◌, ◌≢◌, refl, sym, ap, ◌∙◌, false, true, List, [], ◌∷◌, ◌++◌, Option,
  none, some, String, eq_iff, map, has_text, has_text-append, length, length-replicate, get_elem?,
  replicate, arith, eq_refl,
}
use nvidia_gpu_scheduler.Sets.{Distinct}
use nvidia_gpu_scheduler.Words.{add_i64}
use nvidia_gpu_scheduler.Api.{Pod}
use nvidia_gpu_scheduler.NodeCache.{GpuNodeCache}
use nvidia_gpu_scheduler.Scheduler.{
  ScorePlugin, Framework, HostPriority, no_priority, new_table, score_nodes, score_piece,
  sum_scores, summarize, run_score_plugins,
}
use nvidia_gpu_scheduler.Scheduler.Rows.{
  Rows, names_of, table_of, insert-table_of_absent, fill, AllNamed, score_node-table_of, Filled,
  Long, Long-fill, Filled-fill, Filled-fill_ne,
}

Distinct-middle :
    (xs ys : List String) (k : String) → Distinct (xs ++ k ∷ ys) → has_text xs k ≡ false
Distinct-middle [] ys k d = refl
Distinct-middle (x ∷ xs) ys k d =
    ground (
      arith,
      eq_iff x k,
      eq_iff k x,
      has_text-append xs (k ∷ ys) x,
      d.0,
      Distinct-middle xs ys k d.1,
    )

new_table-table_of :
    (pls : List ScorePlugin) (names : List String) (n : ℕ)
    → Distinct (names ++ names_of pls)
    → new_table pls n (table_of names (λ _. replicate n no_priority))
      ≡ table_of (names ++ names_of pls) (λ _. replicate n no_priority)
unfolding new_table
new_table-table_of [] names n d = rw append-nil
new_table-table_of (p ∷ ps) names n d =
    rw
      (insert-table_of_absent names (λ _. replicate n no_priority) p.name
        (Distinct-middle names (names_of ps) p.name d))
      (new_table-table_of ps (names ++ p.name ∷ []) n (rw (append_assoc names (p.name ∷ [])) d)
        ∙ ap (λ l. table_of l (λ _. replicate n no_priority))
            (append_assoc names (p.name ∷ []) (names_of ps)))

AllNamed-all :
    (cache : GpuNodeCache) (pod : Pod) (pls : List ScorePlugin) (names : List String)
    → ((k : String) → has_text (names_of pls) k ≡ true → has_text names k ≡ true)
    → AllNamed cache pod names pls
AllNamed-all cache pod [] names h = tt
AllNamed-all cache pod (p ∷ ps) names h = (
  h p.name (rw (eq_refl p.name)),
  AllNamed-all cache pod ps names (λ k q. h k (ground (arith, q))),
)

module _ (cache : GpuNodeCache) (pod : Pod) where
  -- The sum of the scores that the plugins give the node, as int64.
  abbrev pub total_score : List ScorePlugin → String → ℕ → ℕ
  total_score [] node acc = acc
  total_score (p ∷ ps) node acc = total_score ps node (add_i64 acc (p.score cache pod node).0)

  sum_scores-total :
      (pls : List ScorePlugin) (i : ℕ) (node : String) (rows : Rows) (acc : ℕ)
      → Filled cache pod pls i node rows
      → sum_scores (table_of (names_of pls) rows) i acc ≡ total_score pls node acc
  unfolding sum_scores
  sum_scores-total [] i node rows acc f = refl
  sum_scores-total (p ∷ ps) i node rows acc f =
      rw (f.0, sum_scores) (sum_scores-total ps i node rows _ f.1)

  piece_rows : List ScorePlugin → ℕ → Option String → Rows → Rows
  piece_rows pls i none rows = rows
  piece_rows pls i (some node) rows = fill cache pod pls i node rows

  all_rows : List ScorePlugin → List String → List ℕ → Rows → Rows
  all_rows pls nodes [] rows = rows
  all_rows pls nodes (i ∷ order) rows =
      all_rows pls nodes order (piece_rows pls i (get_elem? nodes i) rows)

  score_piece-table_of :
      (pls : List ScorePlugin) (i : ℕ) (o : Option String) (rows : Rows)
      → Distinct (names_of pls)
      → score_piece pls cache pod i o (table_of (names_of pls) rows)
        ≡ table_of (names_of pls) (piece_rows pls i o rows)
  unfolding piece_rows
  score_piece-table_of pls i none rows d = refl
  score_piece-table_of pls i (some node) rows d =
      score_node-table_of cache pod (names_of pls) pls i node rows d
        (AllNamed-all cache pod pls (names_of pls) (λ k h. h))

  score_nodes-table_of :
      (pls : List ScorePlugin) (nodes : List String) (order : List ℕ) (rows : Rows)
      → Distinct (names_of pls)
      → score_nodes pls cache pod nodes order (table_of (names_of pls) rows)
        ≡ table_of (names_of pls) (all_rows pls nodes order rows)
  unfolding score_nodes all_rows
  score_nodes-table_of pls nodes [] rows d = refl
  score_nodes-table_of pls nodes (i ∷ order) rows d =
      rw (score_piece-table_of pls i (get_elem? nodes i) rows d)
        (score_nodes-table_of pls nodes order _ d)

  Long-piece :
      (pls : List ScorePlugin) (n i : ℕ) (o : Option String) (rows : Rows)
      → Long cache pod pls n rows
      → Long cache pod pls n (piece_rows pls i o rows)
  unfolding piece_rows
  Long-piece pls n i none rows l = l
  Long-piece pls n i (some node) rows l = Long-fill cache pod pls pls n i node rows l

  module _ (pls : List ScorePlugin) (d : Distinct (names_of pls)) (nodes : List String) (j : ℕ)
      (node : String) (at : get_elem? nodes j ≡ some node) where
    abbrev Done : Rows → Type 0
    Done = Filled cache pod pls j node

    Done-same :
        (rows : Rows)
        → Long cache pod pls (length nodes) rows
        → j < length nodes
        → Done (piece_rows pls j (get_elem? nodes j) rows)
    unfolding piece_rows
    Done-same rows l h = rw at (Filled-fill cache pod pls (length nodes) j node rows d l h)

    Done-other :
        (i : ℕ) (o : Option String) (rows : Rows)
        → i ≢ j
        → Done rows
        → Done (piece_rows pls i o rows)
    unfolding piece_rows
    Done-other i none rows ne f = f
    Done-other i (some other) rows ne f = Filled-fill_ne cache pod pls pls i j other node rows ne f

    Done-kept :
        (order : List ℕ) (rows : Rows)
        → Long cache pod pls (length nodes) rows
        → j < length nodes
        → Done rows
        → Done (all_rows pls nodes order rows)
    unfolding all_rows
    Done-kept [] rows l h f = f
    Done-kept (i ∷ order) rows l h f =
        Done-kept order _ (Long-piece pls (length nodes) i (get_elem? nodes i) rows l) h
          (elim (ℕ_discrete i j) [
            | yes e ↦ rw e (Done-same rows l h)
            | no ne ↦ Done-other i (get_elem? nodes i) rows ne f
          ])

    Done-all :
        (order : List ℕ) (rows : Rows)
        → Long cache pod pls (length nodes) rows
        → j < length nodes
        → Memᴰ j order
        → Done (all_rows pls nodes order rows)
    unfolding all_rows
    Done-all [] rows l h m = elim m [ ]
    Done-all (i ∷ order) rows l h (Memᴰ.head e) =
        Done-kept order _ (Long-piece pls (length nodes) i (get_elem? nodes i) rows l) h
          (rw (← e) (Done-same rows l h))
    Done-all (i ∷ order) rows l h (Memᴰ.tail m) =
        Done-all order _ (Long-piece pls (length nodes) i (get_elem? nodes i) rows l) h m

  -- What the summary of the rows is to be for the nodes.
  abbrev pub priorities : List ScorePlugin → List String → List HostPriority
  priorities pls nodes = map (λ node. record { host = node; score = total_score pls node 0 }) nodes

  summarize-priorities :
      (pls : List ScorePlugin) (rows : Rows) (i : ℕ) (nodes : List String)
      → ((j : ℕ) (node : String)
          → get_elem? nodes j ≡ some node
          → Filled cache pod pls (i + j) node rows)
      → summarize (table_of (names_of pls) rows) i nodes ≡ priorities pls nodes
  unfolding summarize
  summarize-priorities pls rows i [] h = refl
  summarize-priorities pls rows i (node ∷ nodes) h = cc (
    sum_scores-total pls i node rows 0 (rw add-zero at (h 0 node refl)),
    summarize-priorities pls rows (suc i) nodes
        (λ j other e. rw (add-suc i j ∙ sym (suc-add i j)) at (h (suc j) other e)),
  )

  Long-new : (ps : List ScorePlugin) (n : ℕ) → Long cache pod ps n (λ _. replicate n no_priority)
  Long-new [] n = tt
  Long-new (p ∷ ps) n = (length-replicate n no_priority, Long-new ps n)

get_elem?-lt : (xs : List String) (k : ℕ) {m : String} → get_elem? xs k ≡ some m → k < length xs
get_elem?-lt [] k h = cc
get_elem?-lt (x ∷ xs) zero h = omega arith
get_elem?-lt (x ∷ xs) (suc k) h = omega (arith, get_elem?-lt xs k h)

-- If the score plugins have different names, and every node's piece of work runs, in whatever order
-- and however often, RunScorePlugins returns one entry for each node, in the order of the request,
-- with the int64 sum of the scores that the plugins give the node.
pub run_score_plugins-priorities :
    (f : Framework) (cache : GpuNodeCache) (pod : Pod) (nodes : List String) (order : List ℕ)
    → Distinct (names_of f.score_plugins)
    → ((i : ℕ) → i < length nodes → Memᴰ i order)
    → run_score_plugins f cache pod nodes order ≡ priorities cache pod f.score_plugins nodes
unfolding run_score_plugins
run_score_plugins-priorities f cache pod nodes order d covers =
    let pls = f.score_plugins in
    let n = length nodes in
    let start : Rows = λ _. replicate n no_priority in
    rw (new_table-table_of pls [] n d, score_nodes-table_of cache pod pls nodes order start d)
      (summarize-priorities cache pod pls _ 0 nodes (λ j node e. rw zero-add (
        Done-all cache pod pls d nodes j node e order start (Long-new cache pod pls n)
          (get_elem?-lt nodes j e) (covers j (get_elem?-lt nodes j e)))))
