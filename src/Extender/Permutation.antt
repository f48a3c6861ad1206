-- ===== src/Extender/Permutation.antt =====
-- The feasible nodes of a request, for every interleaving of the workers in Workers.
use mathlib.Core.List.{append_assoc, append-nil, Perm, perm_middle}
use mathlib.Core.List.Perm
use nvidia_gpu_scheduler.Prelude.{
  ℕ, suc, ◌+◌, ◌-◌, ◌≤◌, ◌<◌, ◌≡◌, ◌⊎◌, inl, inr, refl, ap, ◌∙◌, true, false, List, [], ◌∷◌, ◌++◌,
  some, String, length, length-append, length-set, length-replicate, get_elem?, set, arith,
}
use nvidia_gpu_scheduler.Extender.Workers.{
  Piece, Handling, Step, refuse, reserve, write, Run, here, next, IsDone, begin, add_i32,
  reserve_place, write_place, feasible, accepted_of,
}
use nvidia_gpu_scheduler.Extender.Places.{
  Pending, AllHold, get_elem?-append_last, get_elem?-append_inv, get_elem?-lt, AllHold-append,
  AllHold-split, Pending-split, get_elem?-set, get_elem?-set_self, take_of_holds,
}

accepted_of-append :
    (xs ys : List Piece) → accepted_of (xs ++ ys) ≡ accepted_of xs ++ accepted_of ys
accepted_of-append [] ys = refl
accepted_of-append ((n, true) ∷ xs) ys = ap (◌∷◌ n) (accepted_of-append xs ys)
accepted_of-append ((n, false) ∷ xs) ys = accepted_of-append xs ys

-- The state of the workers, with the nodes in the order of their reservations.
record Inv (pieces : List Piece) (out : List String) (s : Handling) : Type 0 where
  counted : s.feasible_nodes_len ≡ length out
  room : length s.feasible_nodes ≡ length pieces
  bounded : length out + length s.idle ≤ length pieces
  share : Perm (out ++ accepted_of s.idle) (accepted_of pieces)
  owed :
      (k : ℕ) (n : String)
      → get_elem? out k ≡ some n
      → (get_elem? s.feasible_nodes k ≡ some n) ⊎ Pending k n s.reserved
  right : AllHold out s.reserved

-- The atomic counter does not wrap.
abbrev pub FitsInt32 : List Piece → Type 0
FitsInt32 pieces = length pieces < 2147483648

begin-Inv : (pieces : List Piece) → Inv pieces [] (begin pieces)
unfolding begin
begin-Inv pieces = record {
  counted = refl;
  room = length-replicate (length pieces) "";
  bounded = omega arith;
  share = Perm.refl (accepted_of pieces);
  owed = λ k n h. cc;
  right = tt;
}

length-middle : (xs ys : List Piece) (p : Piece) → length (xs ++ p ∷ ys) ≡ suc (length (xs ++ ys))
length-middle [] ys p = refl
length-middle (x ∷ xs) ys p = ap suc (length-middle xs ys p)

refuse-accepted :
    (xs ys : List Piece) (n : String) → accepted_of (xs ++ (n, false) ∷ ys) ≡ accepted_of (xs ++ ys)
refuse-accepted xs ys n = rw (accepted_of-append xs ((n, false) ∷ ys), accepted_of-append xs ys)

reserve-share :
    (out : List String) (xs ys : List Piece) (n : String)
    → Perm ((out ++ n ∷ []) ++ accepted_of (xs ++ ys)) (out ++ accepted_of (xs ++ (n, true) ∷ ys))
reserve-share out xs ys n =
    rw (accepted_of-append xs ((n, true) ∷ ys), accepted_of-append xs ys, append_assoc out (n ∷ []))
      (Perm.append_left out (Perm.symm (perm_middle (accepted_of xs) (accepted_of ys))))

module _ (pieces : List Piece) (fits : FitsInt32 pieces) where
  -- Some order of the reservations explains the state.
  abbrev Explained : Handling → Type 0
  Explained s = (out : List String) × Inv pieces out s

  refuse-Inv :
      (s : Handling) (xs ys : List Piece) (n : String)
      → s.idle ≡ xs ++ (n, false) ∷ ys
      → Explained s
      → Explained (record s { idle = xs ++ ys })
  refuse-Inv s xs ys n e (out, v) = (
    out,
    record {
      counted = v.counted;
      room = v.room;
      bounded = omega (arith, v.bounded, length-middle xs ys (n, false), ap length e);
      share = rw (e, refuse-accepted xs ys n) at v.share;
      owed = v.owed;
      right = v.right;
    },
  )

  reserve-Inv :
      (s : Handling) (xs ys : List Piece) (n : String)
      → s.idle ≡ xs ++ (n, true) ∷ ys
      → Explained s
      → Explained (reserve_place n (record s { idle = xs ++ ys }))
  unfolding reserve_place
  reserve-Inv s xs ys n e (out, v) = (
    out ++ n ∷ [],
    record {
      counted = omega (arith, v.bounded, len', v.counted, length-append out (n ∷ []), fits);
      room = v.room;
      bounded = omega (arith, v.bounded, len', length-append out (n ∷ []));
      share = Perm.trans (reserve-share out xs ys n) (rw e at v.share);
      owed = λ k m h. elim (get_elem?-append_inv out n k h) [
        | inl old ↦ elim (v.owed k m old) [ inl a ↦ inl a | inr p ↦ inr (inr p) ]
        | inr (last, same) ↦ inr (inl (place ∙ last, same))
      ];
      right = (rw place (get_elem?-append_last out n), AllHold-append out n s.reserved v.right);
    },
  )
    where
      len' : length s.idle ≡ suc (length (xs ++ ys))
      len' = ap length e ∙ length-middle xs ys (n, true)

      place : add_i32 s.feasible_nodes_len 1 - 1 ≡ length out
      place = omega (arith, v.bounded, v.counted, len', fits)

  write-Inv :
      (s : Handling) (us vs : List (ℕ × String)) (k : ℕ) (n : String)
      → s.reserved ≡ us ++ (k, n) ∷ vs
      → Explained s
      → Explained (write_place k n (record s { reserved = us ++ vs }))
  unfolding write_place
  write-Inv s us vs k n e (out, v) = (
    out,
    record {
      counted = v.counted;
      room = length-set s.feasible_nodes k n ∙ v.room;
      bounded = v.bounded;
      share = v.share;
      owed = λ j m h. elim (v.owed j m h) [
        | inl a ↦ elim (get_elem?-set s.feasible_nodes k n j a) [
          | inl (same, b) ↦ inl (cc (held.0, b, same, h))
          | inr c ↦ inl c
        ]
        | inr p ↦ elim (Pending-split us vs k n j m (rw e at p)) [
          | inl (same, equal) ↦ inl (cc (written, same, equal))
          | inr q ↦ inr q
        ]
      ];
      right = held.1;
    },
  )
    where
      held : (get_elem? out k ≡ some n) × AllHold out (us ++ vs)
      held = AllHold-split out us vs k n (rw e at v.right)

      written : get_elem? (set s.feasible_nodes k n) k ≡ some n
      written =
          get_elem?-set_self s.feasible_nodes k n
            (omega (arith, get_elem?-lt out k held.0, v.room, v.bounded))

  Step-Inv : {s t : Handling} → Step s t → Explained s → Explained t
  Step-Inv (refuse xs ys n e h) v = rw h (refuse-Inv _ xs ys n e v)
  Step-Inv (reserve xs ys n e h) v = rw h (reserve-Inv _ xs ys n e v)
  Step-Inv (write us vs k n e h) v = rw h (write-Inv _ us vs k n e v)

  Run-Inv : {s t : Handling} → Run s t → Explained s → Explained t
  Run-Inv here v = v
  Run-Inv (next r st) v = Step-Inv st (Run-Inv r v)

  in_range :
      {s : Handling} (us vs : List (ℕ × String)) (k : ℕ) (n : String)
      → s.reserved ≡ us ++ (k, n) ∷ vs
      → Explained s
      → k < length s.feasible_nodes
  in_range us vs k n e (out, v) = omega (
    arith,
    get_elem?-lt out k (AllHold-split out us vs k n (rw e at v.right)).0,
    v.room,
    v.bounded,
  )

  -- In every state that the workers can reach, a place that is reserved lies inside feasibleNodes, so
  -- no write is out of range, if there are fewer than 2 ^ 31 nodes.
  pub reserved_in_range :
      {s : Handling}
      → Run (begin pieces) s
      → (us vs : List (ℕ × String)) (k : ℕ) (n : String) → s.reserved ≡ us ++ (k, n) ∷ vs
      → k < length s.feasible_nodes
  reserved_in_range r us vs k n e = in_range us vs k n e (Run-Inv r ([], begin-Inv pieces))

  done-perm : {s : Handling} → IsDone s → Explained s → Perm (feasible s) (accepted_of pieces)
  unfolding feasible
  done-perm {s} done (out, v) =
      rw (v.counted, take_of_holds out s.feasible_nodes settled)
        (rw (done.none_idle, append-nil out) at v.share)
    where
      settled :
          (k : ℕ) (n : String) → get_elem? out k ≡ some n → get_elem? s.feasible_nodes k ≡ some n
      settled k n h = elim (v.owed k n h) [
        | inl a ↦ a
        | inr p ↦ absurd (rw done.none_reserved at p)
      ]

  -- However the workers interleave, when all pieces have run to their end the feasible nodes are
  -- exactly the nodes that the plugins accept, each as often as it is asked for, if there are fewer
  -- than 2 ^ 31 nodes.
  pub feasible-perm :
      {s : Handling} → Run (begin pieces) s → IsDone s → Perm (feasible s) (accepted_of pieces)
  feasible-perm r done = done-perm done (Run-Inv r ([], begin-Inv pieces))
