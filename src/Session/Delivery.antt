-- ===== src/Session/Delivery.antt =====
-- A watch whose client stays can always be brought up to date.
use mathlib.Core.List.{append_assoc, append-nil}
use nvidia_gpu_scheduler.Prelude.{
  ◌≡◌, refl, ◌∙◌, false, List, [], ◌∷◌, ◌++◌, Option, none, some, arith,
}
use nvidia_gpu_scheduler.Watch.{Event}
use nvidia_gpu_scheduler.Session.{
  Entry, notified, Session, take_event, forward, write_event, takes, forwards, writes, Run, here,
  Run-trans, read_entry,
}
use nvidia_gpu_scheduler.Session.Listing.{prepend}
use nvidia_gpu_scheduler.Session.Stream.{held_of, entries_of, stream, IsListed}

module _ {A : Type 0} where
  -- The session with other events on their way and written.
  abbrev with_events :
      Session A → Option (Event A) → List (Event A) → List (Entry A) → List (Event A) → Session A
  with_events s h c r w = record s { held = h; watch_chan = c; watch_result_chan = r; written = w }

  module _ (s : Session A) (v : IsListed s) (stays : s.is_done ≡ false) where
    write_all :
        (h : Option (Event A)) (c : List (Event A)) (r : List (Entry A)) (w : List (Event A))
        → Run (with_events s h c r w) (with_events s h c [] (w ++ entries_of s.loop_var r))
    unfolding write_event
    write_all h c [] w = rw append-nil here
    write_all h c (x ∷ r) w = prepend (writes x r stays refl refl) (
        rw (← append_assoc w (read_entry s.loop_var x) (entries_of s.loop_var r))
          (write_all h c r (w ++ read_entry s.loop_var x)))

    pass_held :
        (h : Option (Event A)) (c w : List (Event A))
        → Run (with_events s h c [] w) (with_events s none c [] (w ++ held_of h))
    unfolding forward
    pass_held none c w = rw append-nil here
    pass_held (some e) c w =
        prepend (forwards e refl (omega arith) refl) (write_all none c (notified e ∷ []) w)

    pass_all :
        (c w : List (Event A)) → Run (with_events s none c [] w) (with_events s none [] [] (w ++ c))
    unfolding take_event
    pass_all [] w = rw append-nil here
    pass_all (e ∷ c) w = prepend (takes e c v.no_items v.is_sent refl refl refl) (
        Run-trans (pass_held (some e) c w)
          (rw (← append_assoc w (e ∷ []) c) (pass_all c (w ++ e ∷ []))))

    -- Once the list is sent, and as long as the client has not gone away, the handler and the
    -- goroutine can always go on to a state in which the client has been sent everything that was on
    -- its way, in order, and nothing is on its way any more.
    pub watch_delivers :
        (t : Session A) × Run s t
        × (t.written ≡ stream s)
        × (t.watch_result_chan ≡ [])
        × (t.held ≡ none)
        × (t.watch_chan ≡ [])
    watch_delivers =
        let r = entries_of s.loop_var s.watch_result_chan in
        let w = s.written ++ r in
        let h = held_of s.held in
        (
          with_events s none [] [] ((w ++ h) ++ s.watch_chan),
          Run-trans (write_all s.held s.watch_chan s.watch_result_chan s.written)
              (Run-trans (pass_held s.held s.watch_chan w) (pass_all s.watch_chan (w ++ h))),
          append_assoc w h s.watch_chan ∙ append_assoc s.written r (h ++ s.watch_chan),
          refl,
          refl,
          refl,
        )
