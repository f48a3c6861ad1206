-- ===== src/Session/Listing.antt =====
-- What the client is sent of the list.
use nvidia_gpu_scheduler.Prelude.{
  ℕ, zero, suc, ap, Option, ◌+◌, ◌≤◌, ◌<◌, ◌≡◌, refl, false, true, List, [], ◌∷◌, ◌++◌, none, some,
  length, arith, replicate, length-replicate,
}
use mathlib.Core.List.{append_assoc, append-nil}
use native.Mathlib.Nat.{add-zero, zero-add}
use nvidia_gpu_scheduler.Watch.{Event, synced}
use nvidia_gpu_scheduler.Session.{
  Entry, listed, result_cap, Session, begin_session, assign, send_listed, write_event, Step,
  assigns, sends, writes, Run, here, next, Run-trans,
}

replicate-snoc : {B : Type 0} (n : ℕ) (b : B) → replicate n b ++ b ∷ [] ≡ replicate (suc n) b
replicate-snoc zero b = refl
replicate-snoc (suc n) b = ap (◌∷◌ b) (replicate-snoc n b)

pub prepend : {A : Type 0} {s t u : Session A} → Step s t → Run t u → Run s u
prepend st r = Run-trans (next here st) r

abbrev pub one_listed : {A : Type 0} → Entry A
one_listed = listed

module _ {A : Type 0} where
  -- The value of the loop's variable when the loop is over.
  abbrev pub last_var : Option A → List A → Option A
  last_var v [] = v
  last_var v (x ∷ xs) = last_var (some x) xs

  -- The loop has still these items to come to, the handler has written these events, and the channel
  -- holds n addresses.
  abbrev pub at_loop : Option A → ℕ → List A → List (Event A) → Session A
  at_loop v n rest written = record {
    items = rest;
    loop_var = v;
    is_sending = false;
    held = none;
    watch_chan = [];
    is_watch_closed = false;
    watch_result_chan = replicate n listed;
    is_result_closed = false;
    written = written;
    is_done = false;
    has_panicked = false;
    is_watching = true;
  }

  sent_one :
      (x : A) (n : ℕ) (rest : List A) (v : Option A)
      → at_loop (some x) (suc n) rest [] ≡ send_listed (assign x rest (at_loop v n (x ∷ rest) []))
  unfolding send_listed assign
  sent_one x n rest v = rw (replicate-snoc n (one_listed {A = A})) refl

  -- The goroutine goes through the first items.
  pub fill_run :
      (v : Option A) (n : ℕ) (xs rest : List A)
      → n + length xs ≤ result_cap
      → Run (at_loop v n (xs ++ rest) []) (at_loop (last_var v xs) (n + length xs) rest [])
  fill_run v n [] rest h = rw add-zero here
  fill_run v n (x ∷ xs) rest h =
      let room : length (replicate n (one_listed {A = A})) < result_cap =
        omega (arith, length-replicate n (one_listed {A = A})) in
      let sum : n + length (x ∷ xs) ≡ suc n + length xs = omega arith in
      prepend (assigns x (xs ++ rest) refl refl refl) (
        prepend
          (sends (unfold assign in refl) (unfold assign in room) (sent_one x n (xs ++ rest) v))
          (rw sum (fill_run (some x) (suc n) xs rest (omega arith))))

  drain_run :
      (a : A) (n : ℕ) (written : List (Event A))
      → Run
          (at_loop (some a) n [] written)
          (at_loop (some a) 0 [] (written ++ replicate n (a, synced)))
  unfolding write_event
  drain_run a zero written = rw append-nil here
  drain_run a (suc n) written = prepend (writes listed (replicate n listed) refl refl refl) (
      rw (← append_assoc written ((a, synced) ∷ []) (replicate n (a, synced)))
        (drain_run a n (written ++ (a, synced) ∷ [])))

  -- For a list of one to ten items there is a run of a watch, in which the goroutine goes through the
  -- list before the handler writes, after which the client has been sent one event for each item,
  -- every one of them with the last item, and nothing of the list is left to send.
  pub listed_as_last :
      (x : A) (xs : List A)
      → length (x ∷ xs) ≤ result_cap
      → (t : Session A) × (a : A) × Run (begin_session (x ∷ xs)) t
        × (last_var none (x ∷ xs) ≡ some a)
        × (t.written ≡ replicate (length (x ∷ xs)) (a, synced))
        × (t.items ≡ [])
        × (t.watch_result_chan ≡ [])
  unfolding begin_session
  listed_as_last x xs h =
      let (a, e) = last_is_some x xs in
      let fill = fill_run none 0 (x ∷ xs) [] (rw zero-add h) in
      (
        at_loop (some a) 0 [] (replicate (length (x ∷ xs)) (a, synced)),
        a,
        Run-trans (rw (e, zero-add, append-nil xs) at fill) (drain_run a (length (x ∷ xs)) []),
        e,
        refl,
        refl,
        refl,
      )
    where
      last_is_some : (y : A) (ys : List A) → (a : A) × (last_var (some y) ys ≡ some a)
      last_is_some y [] = (y, refl)
      last_is_some y (z ∷ ys) = last_is_some z ys
