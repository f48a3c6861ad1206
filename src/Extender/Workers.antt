-- ===== src/Extender/Workers.antt =====
-- The parallel check of the nodes, `checkNode` of postScheduleFilterHandler and of
-- postSchedulePreemptHandler: each piece of work runs the filter plugins on one node and, where they
-- accept it, reserves a place by one atomic addition and then writes the node there. The workers'
-- steps may interleave in any way. A piece is a node with the answer that the plugins give for it
-- when the piece runs.
use nvidia_gpu_scheduler.Prelude.{
  ℕ, ◌+◌, ◌-◌, ◌%◌, ◌≡◌, Bool, true, false, List, [], ◌∷◌, ◌++◌, String, length, set, take,
  replicate,
}

abbrev pub Piece : Type 0
Piece = String × Bool

-- atomic.AddInt32, on a count that is not negative
abbrev pub add_i32 : ℕ → ℕ → ℕ
add_i32 a b = (a + b) % 4294967296

pub record Handling : Type 0 where
  -- the pieces that no worker has begun
  pub idle : List Piece
  -- the places that are reserved and not yet written
  pub reserved : List (ℕ × String)
  pub feasible_nodes : List String
  pub feasible_nodes_len : ℕ

unfoldable pub begin : List Piece → Handling
begin pieces = record {
  idle = pieces;
  reserved = [];
  feasible_nodes = replicate (length pieces) "";
  feasible_nodes_len = 0;
}

-- length := atomic.AddInt32(&feasibleNodesLen, 1); the place is length-1
unfoldable pub reserve_place : String → Handling → Handling
reserve_place node s =
    let len = add_i32 s.feasible_nodes_len 1 in
    record s { feasible_nodes_len = len; reserved = (len - 1, node) ∷ s.reserved }

-- feasibleNodes[length-1] = node
unfoldable pub write_place : ℕ → String → Handling → Handling
write_place k node s = record s { feasible_nodes = set s.feasible_nodes k node }

pub data Step (s t : Handling) : Type 0 where
  refuse :
      (xs ys : List Piece) (node : String)
      → s.idle ≡ xs ++ (node, false) ∷ ys
      → t ≡ record s { idle = xs ++ ys }
      → Step s t
  reserve :
      (xs ys : List Piece) (node : String)
      → s.idle ≡ xs ++ (node, true) ∷ ys
      → t ≡ reserve_place node (record s { idle = xs ++ ys })
      → Step s t
  write :
      (us vs : List (ℕ × String)) (k : ℕ) (node : String)
      → s.reserved ≡ us ++ (k, node) ∷ vs
      → t ≡ write_place k node (record s { reserved = us ++ vs })
      → Step s t

pub data Run (s : Handling) : Handling → Type 0 where
  here : Run s s
  next : {t u : Handling} → Run s t → Step t u → Run s u

-- ParallelizeUntil has returned: every piece has run to its end.
pub record IsDone (s : Handling) : Type 0 where
  pub none_idle : s.idle ≡ []
  pub none_reserved : s.reserved ≡ []

-- feasibleNodes[:feasibleNodesLen]
unfoldable pub feasible : Handling → List String
feasible s = take s.feasible_nodes_len s.feasible_nodes

-- The nodes of the pieces that the plugins accept, in the order of the request.
abbrev pub accepted_of : List Piece → List String
accepted_of [] = []
accepted_of ((node, true) ∷ ps) = node ∷ accepted_of ps
accepted_of ((node, false) ∷ ps) = accepted_of ps
