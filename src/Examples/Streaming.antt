-- ===== src/Examples/Streaming.antt =====
-- Watch requests whose objects are numbers.
use nvidia_gpu_scheduler.Prelude.{
  ℕ, ◌≡◌, ◌≤◌, refl, false, true, [], ◌∷◌, ◌++◌, none, some, replicate, length, arith,
}
use nvidia_gpu_scheduler.Watch.{synced, deleted}
use nvidia_gpu_scheduler.Session.{
  Session, begin_session, Run, here, next, takes, offers, take_event, offer_event, result_cap,
}
use nvidia_gpu_scheduler.Session.Stream.{IsListed, stream, offered_in, Run-stream}
use nvidia_gpu_scheduler.Session.Delivery.{watch_delivers}
use nvidia_gpu_scheduler.Session.Listing.{last_var, listed_as_last}
use nvidia_gpu_scheduler.Session.Stuck.{IsStuck, goroutine-IsStuck}

-- The list is sent, and one notification waits.
abbrev listed : Session ℕ
listed = record {
  items = [];
  loop_var = some 3;
  is_sending = false;
  held = none;
  watch_chan = (7, synced) ∷ [];
  is_watch_closed = false;
  watch_result_chan = [];
  is_result_closed = false;
  written = [];
  is_done = false;
  has_panicked = false;
  is_watching = true;
}

-- The goroutine takes it, and another notification comes.
abbrev taken : Session ℕ
unfolding take_event offer_event
taken = offer_event (8, deleted) (take_event (7, synced) [] listed)

two_steps : Run listed taken
unfolding take_event offer_event
two_steps =
    next (next here (takes (7, synced) [] refl refl refl refl refl))
      (offers (8, deleted) refl refl (omega arith) refl)

listed-IsListed : IsListed listed
listed-IsListed = record { no_items = refl; is_sent = refl }

Run-stream_example : stream taken ≡ stream listed ++ offered_in two_steps
unfolding two_steps
Run-stream_example = Run-stream two_steps listed-IsListed tt

watch_delivers_example :
    (t : Session ℕ) × Run listed t
    × (t.written ≡ stream listed)
    × (t.watch_result_chan ≡ [])
    × (t.held ≡ none)
    × (t.watch_chan ≡ [])
watch_delivers_example = watch_delivers listed listed-IsListed refl

few : length {A = ℕ} (4 ∷ 5 ∷ 6 ∷ []) ≤ result_cap
few = omega arith

listed_as_last_example :
    (t : Session ℕ) × (a : ℕ) × Run (begin_session (4 ∷ 5 ∷ 6 ∷ [])) t
    × (last_var none (4 ∷ 5 ∷ 6 ∷ []) ≡ some a)
    × (t.written ≡ replicate 3 (a, synced))
    × (t.items ≡ [])
    × (t.watch_result_chan ≡ [])
listed_as_last_example = listed_as_last 4 (5 ∷ 6 ∷ []) few

goroutine-IsStuck_example :
    (t : Session ℕ) × Run (begin_session (replicate 10 4 ++ 5 ∷ 6 ∷ [])) t
    × IsStuck t
    × ((u : Session ℕ) → Run t u → IsStuck u)
goroutine-IsStuck_example = goroutine-IsStuck (replicate 10 4) (6 ∷ []) 5 refl
