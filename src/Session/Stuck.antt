-- ===== src/Session/Stuck.antt =====
-- A client that goes away while the list is being sent.
use nvidia_gpu_scheduler.Prelude.{◌≡◌, refl, true, List, [], ◌∷◌, ◌++◌, Option, none, length, arith}
use nvidia_gpu_scheduler.Session.Listing.{at_loop, last_var, fill_run}
use nvidia_gpu_scheduler.Session.{
  result_cap, Session, begin_session, assign, leave, clean, offer_event, Step, assigns, sends,
  takes, forwards, closes, writes, fails, leaves, leaves_late, ends, offers, cleans, Run, here,
  next,
}

module _ {A : Type 0} where
  -- The handler has returned, and the goroutine waits for room in a full channel.
  pub record IsStuck (s : Session A) : Type 0 where
    pub gone : s.is_done ≡ true
    pub full : length s.watch_result_chan ≡ result_cap
    pub waiting : s.is_sending ≡ true

  Step-IsStuck : {s t : Session A} → Step s t → IsStuck s → IsStuck t
  Step-IsStuck (assigns a rest h k e) v = absurd (ground (arith, v.waiting))
  Step-IsStuck (sends h k e) v = absurd (omega (arith, v.full))
  Step-IsStuck (takes x rest h k l m e) v = absurd (ground (arith, v.waiting))
  Step-IsStuck (forwards x h k e) v = absurd (omega (arith, v.full))
  Step-IsStuck (closes h k l m n o e) v = absurd (ground (arith, v.waiting))
  Step-IsStuck (writes x rest h k e) v = absurd (ground (arith, v.gone))
  Step-IsStuck (fails x rest h k e) v = absurd (ground (arith, v.gone))
  Step-IsStuck (leaves h k e) v = absurd (ground (arith, v.gone))
  Step-IsStuck (leaves_late h k e) v = absurd (ground (arith, v.gone))
  Step-IsStuck (ends h k l e) v = absurd (ground (arith, v.gone))
  Step-IsStuck (offers x h k l e) v =
      rw e (unfold offer_event in record { gone = v.gone; full = v.full; waiting = v.waiting })
  Step-IsStuck (cleans h k e) v =
      rw e (unfold clean in record { gone = v.gone; full = v.full; waiting = v.waiting })

  Run-IsStuck : {s t : Session A} → Run s t → IsStuck s → IsStuck t
  Run-IsStuck here v = v
  Run-IsStuck (next r st) v = Step-IsStuck st (Run-IsStuck r v)

  stuck_after : Option A → List A → A → Session A
  unfolding leave assign
  stuck_after v ys y = leave (assign y ys (at_loop v result_cap (y ∷ ys) []))

  stuck_after-IsStuck : (v : Option A) (ys : List A) (y : A) → IsStuck (stuck_after v ys y)
  unfolding stuck_after
  stuck_after-IsStuck v ys y = record { gone = refl; full = refl; waiting = refl }

  -- If the client of a watch whose list has more items than the channel has room for goes away while
  -- the channel is full, the handler can return with the goroutine waiting, and then the goroutine waits
  -- for ever, whatever happens after: it is never ended.
  pub goroutine-IsStuck :
      (xs ys : List A) (y : A)
      → length xs ≡ result_cap
      → (t : Session A) × Run (begin_session (xs ++ y ∷ ys)) t
        × IsStuck t
        × ((u : Session A) → Run t u → IsStuck u)
  unfolding begin_session stuck_after
  goroutine-IsStuck xs ys y h =
      let fill = fill_run none 0 xs (y ∷ ys) (omega arith) in
      let v = stuck_after-IsStuck (last_var none xs) ys y in
      (
        stuck_after (last_var none xs) ys y,
        next (next (rw h at fill) (assigns y ys refl refl refl))
            (leaves (unfold assign in refl) (unfold assign in refl) refl),
        v,
        λ u r. Run-IsStuck r v,
      )
