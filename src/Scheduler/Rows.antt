-- ===== src/Scheduler/Rows.antt =====
-- The rows of pluginToNodeScores: which cells a piece of work writes.
use nvidia_gpu_scheduler.Prelude.{
  ℕ, zero, suc, ◌<◌, ◌≡◌, ◌≢◌, refl, ap, ◌∙◌, true, false, List, [], ◌∷◌, ◌++◌, some, String,
  str_eq, eq_iff, eq_refl, map, lookup, insert, has_text, length, length-set, get_elem?, set, arith,
  if◌then◌else◌,
}
use nvidia_gpu_scheduler.Sets.{Distinct}
use nvidia_gpu_scheduler.Api.{Pod}
use nvidia_gpu_scheduler.NodeCache.{GpuNodeCache}
use nvidia_gpu_scheduler.Scheduler.{ScorePlugin, HostPriority, Table, score_node}

abbrev pub Rows : Type 0
Rows = String → List HostPriority

abbrev pub names_of : List ScorePlugin → List String
names_of = map (λ p. p.name)

abbrev pub table_of : List String → Rows → Table
table_of names rows = map (λ k. (k, rows k)) names

abbrev pub update : Rows → String → List HostPriority → Rows
update rows k v j = if str_eq k j then v else rows j

lookup-table_of :
    (names : List String) (rows : Rows) (k : String)
    → has_text names k ≡ true
    → lookup k (table_of names rows) ≡ some (rows k)
unfolding lookup
lookup-table_of [] rows k h = cc
lookup-table_of (x ∷ names) rows k h = ground (arith, eq_iff x k, lookup-table_of names rows k)

table_of-update_absent :
    (names : List String) (rows : Rows) (k : String) (v : List HostPriority)
    → has_text names k ≡ false
    → table_of names (update rows k v) ≡ table_of names rows
table_of-update_absent [] rows k v h = refl
table_of-update_absent (x ∷ names) rows k v h =
    ground (arith, eq_iff x k, eq_iff k x, table_of-update_absent names rows k v)

insert-table_of :
    (names : List String) (rows : Rows) (k : String) (v : List HostPriority)
    → Distinct names
    → has_text names k ≡ true
    → insert k v (table_of names rows) ≡ table_of names (update rows k v)
unfolding insert
insert-table_of [] rows k v d h = cc
insert-table_of (x ∷ names) rows k v d h = ground (
  arith,
  eq_iff x k,
  eq_iff k x,
  eq_refl k,
  table_of-update_absent names rows k v,
  insert-table_of names rows k v d.1,
)

pub insert-table_of_absent :
    (names : List String) (rows : Rows) (k : String)
    → has_text names k ≡ false
    → insert k (rows k) (table_of names rows) ≡ table_of (names ++ k ∷ []) rows
unfolding insert
insert-table_of_absent [] rows k h = refl
insert-table_of_absent (x ∷ names) rows k h = ground (arith, insert-table_of_absent names rows k)

length-update :
    (rows : Rows) (k j : String) (i : ℕ) (v : HostPriority)
    → length (update rows k (set (rows k) i v) j) ≡ length (rows j)
length-update rows k j i v = ground (arith, eq_iff k j, length-set (rows k) i v)

update_other :
    (rows : Rows) (k j : String) (v : List HostPriority)
    → str_eq k j ≡ false
    → update rows k v j ≡ rows j
update_other rows k j v h = rw h

get_elem?-set_ne :
    (xs : List HostPriority) (i j : ℕ) (v : HostPriority)
    → i ≢ j
    → get_elem? (set xs i v) j ≡ get_elem? xs j
get_elem?-set_ne [] i j v h = refl
get_elem?-set_ne (x ∷ xs) zero zero v h = absurd (h refl)
get_elem?-set_ne (x ∷ xs) zero (suc j) v h = refl
get_elem?-set_ne (x ∷ xs) (suc i) zero v h = refl
get_elem?-set_ne (x ∷ xs) (suc i) (suc j) v h = get_elem?-set_ne xs i j v (λ e. h (ap suc e))

get_elem?-set_self :
    (xs : List HostPriority) (i : ℕ) (v : HostPriority)
    → i < length xs
    → get_elem? (set xs i v) i ≡ some v
get_elem?-set_self [] i v h = absurd (omega arith)
get_elem?-set_self (x ∷ xs) zero v h = refl
get_elem?-set_self (x ∷ xs) (suc i) v h = get_elem?-set_self xs i v (omega arith)

get_elem?-update :
    (rows : Rows) (k m : String) (i j : ℕ) (v : HostPriority)
    → i ≢ j
    → get_elem? (update rows k (set (rows k) i v) m) j ≡ get_elem? (rows m) j
get_elem?-update rows k m i j v h = ground (arith, eq_iff k m, get_elem?-set_ne (rows k) i j v h)

get_elem?-update_self :
    (rows : Rows) (k : String) (i : ℕ) (v : HostPriority)
    → i < length (rows k)
    → get_elem? (update rows k (set (rows k) i v) k) i ≡ some v
get_elem?-update_self rows k i v h = rw (eq_refl k) (get_elem?-set_self (rows k) i v h)

module _ (cache : GpuNodeCache) (pod : Pod) where
  -- The cell that a plugin writes for a node.
  abbrev pub cell : ScorePlugin → String → HostPriority
  cell p node = record { host = node; score = (p.score cache pod node).0 }

  pub fill : List ScorePlugin → ℕ → String → Rows → Rows
  fill [] i node rows = rows
  fill (p ∷ ps) i node rows =
      fill ps i node (update rows p.name (set (rows p.name) i (cell p node)))

  abbrev pub AllNamed : List String → List ScorePlugin → Type 0
  AllNamed names [] = Unit {0}
  AllNamed names (p ∷ ps) = (has_text names p.name ≡ true) × AllNamed names ps

  pub score_node-table_of :
      (names : List String) (pls : List ScorePlugin) (i : ℕ) (node : String) (rows : Rows)
      → Distinct names
      → AllNamed names pls
      → score_node pls cache pod i node (table_of names rows)
        ≡ table_of names (fill pls i node rows)
  unfolding score_node fill
  score_node-table_of names [] i node rows d a = refl
  score_node-table_of names (p ∷ ps) i node rows d a = rw (lookup-table_of names rows p.name a.0) (
      rw (insert-table_of names rows p.name (set (rows p.name) i (cell p node)) d a.0)
        (score_node-table_of names ps i node _ d a.1))

  pub length-fill :
      (pls : List ScorePlugin) (i : ℕ) (node : String) (rows : Rows) (k : String)
      → length (fill pls i node rows k) ≡ length (rows k)
  unfolding fill
  length-fill [] i node rows k = refl
  length-fill (p ∷ ps) i node rows k =
      length-fill ps i node _ k ∙ length-update rows p.name k i (cell p node)

  fill_absent :
      (pls : List ScorePlugin) (i : ℕ) (node : String) (rows : Rows) (k : String)
      → has_text (names_of pls) k ≡ false
      → fill pls i node rows k ≡ rows k
  unfolding fill
  fill_absent [] i node rows k h = refl
  fill_absent (p ∷ ps) i node rows k h =
      fill_absent ps i node _ k (ground arith) ∙ update_other rows p.name k _ (ground arith)

  get_elem?-fill_ne :
      (pls : List ScorePlugin) (i j : ℕ) (node : String) (rows : Rows) (k : String)
      → i ≢ j
      → get_elem? (fill pls i node rows k) j ≡ get_elem? (rows k) j
  unfolding fill
  get_elem?-fill_ne [] i j node rows k h = refl
  get_elem?-fill_ne (p ∷ ps) i j node rows k h =
      get_elem?-fill_ne ps i j node _ k h ∙ get_elem?-update rows p.name k i j (cell p node) h

  -- Every plugin's row holds its score of the node at the place.
  abbrev pub Filled : List ScorePlugin → ℕ → String → Rows → Type 0
  Filled [] i node rows = Unit {0}
  Filled (p ∷ ps) i node rows =
      (get_elem? (rows p.name) i ≡ some (cell p node)) × Filled ps i node rows

  abbrev pub Long : List ScorePlugin → ℕ → Rows → Type 0
  Long [] n rows = Unit {0}
  Long (p ∷ ps) n rows = (length (rows p.name) ≡ n) × Long ps n rows

  pub Long-fill :
      (ps pls : List ScorePlugin) (n i : ℕ) (node : String) (rows : Rows)
      → Long ps n rows
      → Long ps n (fill pls i node rows)
  Long-fill [] pls n i node rows h = tt
  Long-fill (p ∷ ps) pls n i node rows h =
      (length-fill pls i node rows p.name ∙ h.0, Long-fill ps pls n i node rows h.1)

  pub Filled-fill_ne :
      (ps pls : List ScorePlugin) (i j : ℕ) (node node' : String) (rows : Rows)
      → i ≢ j
      → Filled ps j node' rows
      → Filled ps j node' (fill pls i node rows)
  Filled-fill_ne [] pls i j node node' rows h f = tt
  Filled-fill_ne (p ∷ ps) pls i j node node' rows h f = (
    get_elem?-fill_ne pls i j node rows p.name h ∙ f.0,
    Filled-fill_ne ps pls i j node node' rows h f.1,
  )

  Long-update :
      (ps : List ScorePlugin) (n : ℕ) (rows : Rows) (k : String) (i : ℕ) (v : HostPriority)
      → Long ps n rows
      → Long ps n (update rows k (set (rows k) i v))
  Long-update [] n rows k i v h = tt
  Long-update (p ∷ ps) n rows k i v h =
      (length-update rows k p.name i v ∙ h.0, Long-update ps n rows k i v h.1)

  pub Filled-fill :
      (pls : List ScorePlugin) (n i : ℕ) (node : String) (rows : Rows)
      → Distinct (names_of pls)
      → Long pls n rows
      → i < n
      → Filled pls i node (fill pls i node rows)
  unfolding fill
  Filled-fill [] n i node rows d l h = tt
  Filled-fill (p ∷ ps) n i node rows d l h = (
    ap (λ r. get_elem? r i) (fill_absent ps i node _ p.name d.0)
        ∙ get_elem?-update_self rows p.name i (cell p node) (omega arith),
    Filled-fill ps n i node _ d.1 (Long-update ps n rows p.name i (cell p node) l.1) h,
  )
