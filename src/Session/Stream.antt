-- ===== src/Session/Stream.antt =====
-- What becomes of the events that a notification puts into watchChan, once the list is sent.
use mathlib.Core.List.{append_assoc, append-nil}
use nvidia_gpu_scheduler.Prelude.{
  ◌≡◌, refl, sym, ap, ◌∙◌, false, List, [], ◌∷◌, ◌++◌, Option, none, some, arith,
}
use nvidia_gpu_scheduler.Watch.{Event}
use nvidia_gpu_scheduler.Session.{
  Entry, notified, Session, take_event, forward, close_result, write_event, fail_event, leave,
  panic_on_leave, end_session, offer_event, clean, read_entry, Step, assigns, sends, takes,
  forwards, closes, writes, fails, leaves, leaves_late, ends, offers, cleans, Run, here, next,
}

module _ {A : Type 0} where
  abbrev pub held_of : Option (Event A) → List (Event A)
  held_of none = []
  held_of (some e) = e ∷ []

  abbrev pub entries_of : Option A → List (Entry A) → List (Event A)
  entries_of v [] = []
  entries_of v (x ∷ xs) = read_entry v x ++ entries_of v xs

  -- Everything that the client has been sent or is still to be sent, in order.
  abbrev pub stream : Session A → List (Event A)
  stream s =
      s.written ++ (entries_of s.loop_var s.watch_result_chan ++ (held_of s.held ++ s.watch_chan))

  -- The loop over the list is over.
  pub record IsListed (s : Session A) : Type 0 where
    pub no_items : s.items ≡ []
    pub is_sent : s.is_sending ≡ false

  -- The events that a step puts into watchChan, and those that a failed encoding loses.
  abbrev pub offered_by : {s t : Session A} → Step s t → List (Event A)
  offered_by (assigns a rest h k e) = []
  offered_by (sends h k e) = []
  offered_by (takes x rest h k l m e) = []
  offered_by (forwards x h k e) = []
  offered_by (closes h k l m n o e) = []
  offered_by (writes x rest h k e) = []
  offered_by (fails x rest h k e) = []
  offered_by (leaves h k e) = []
  offered_by (leaves_late h k e) = []
  offered_by (ends h k l e) = []
  offered_by (offers x h k l e) = x ∷ []
  offered_by (cleans h k e) = []

  -- No encoding fails.
  abbrev pub AllEncoded : {s t : Session A} → Run s t → Type 0
  AllEncoded here = Unit {0}
  AllEncoded (next r (fails x rest h k e)) = ⊥
  AllEncoded (next r (assigns a rest h k e)) = AllEncoded r
  AllEncoded (next r (sends h k e)) = AllEncoded r
  AllEncoded (next r (takes x rest h k l m e)) = AllEncoded r
  AllEncoded (next r (forwards x h k e)) = AllEncoded r
  AllEncoded (next r (closes h k l m n o e)) = AllEncoded r
  AllEncoded (next r (writes x rest h k e)) = AllEncoded r
  AllEncoded (next r (leaves h k e)) = AllEncoded r
  AllEncoded (next r (leaves_late h k e)) = AllEncoded r
  AllEncoded (next r (ends h k l e)) = AllEncoded r
  AllEncoded (next r (offers x h k l e)) = AllEncoded r
  AllEncoded (next r (cleans h k e)) = AllEncoded r

  abbrev pub offered_in : {s t : Session A} → Run s t → List (Event A)
  offered_in here = []
  offered_in (next r st) = offered_in r ++ offered_by st

  entries_of-append :
      (v : Option A) (xs ys : List (Entry A))
      → entries_of v (xs ++ ys) ≡ entries_of v xs ++ entries_of v ys
  entries_of-append v [] ys = refl
  entries_of-append v (x ∷ xs) ys =
      rw (entries_of-append v xs ys)
        (sym (append_assoc (read_entry v x) (entries_of v xs) (entries_of v ys)))

  Step-IsListed : {s t : Session A} → Step s t → IsListed s → IsListed t
  Step-IsListed (assigns a rest h k e) v = absurd (ground (arith, v.no_items))
  Step-IsListed (sends h k e) v = absurd (ground (arith, v.is_sent))
  Step-IsListed (takes x rest h k l m e) v =
      rw e (unfold take_event in record { no_items = v.no_items; is_sent = v.is_sent })
  Step-IsListed (forwards x h k e) v =
      rw e (unfold forward in record { no_items = v.no_items; is_sent = v.is_sent })
  Step-IsListed (closes h k l m n o e) v =
      rw e (unfold close_result in record { no_items = v.no_items; is_sent = v.is_sent })
  Step-IsListed (writes x rest h k e) v =
      rw e (unfold write_event in record { no_items = v.no_items; is_sent = v.is_sent })
  Step-IsListed (fails x rest h k e) v =
      rw e (unfold fail_event in record { no_items = v.no_items; is_sent = v.is_sent })
  Step-IsListed (leaves h k e) v =
      rw e (unfold leave in record { no_items = v.no_items; is_sent = v.is_sent })
  Step-IsListed (leaves_late h k e) v =
      rw e (unfold panic_on_leave in record { no_items = v.no_items; is_sent = v.is_sent })
  Step-IsListed (ends h k l e) v =
      rw e (unfold end_session in record { no_items = v.no_items; is_sent = v.is_sent })
  Step-IsListed (offers x h k l e) v =
      rw e (unfold offer_event in record { no_items = v.no_items; is_sent = v.is_sent })
  Step-IsListed (cleans h k e) v =
      rw e (unfold clean in record { no_items = v.no_items; is_sent = v.is_sent })

  stream-take_event :
      (e : Event A) (rest : List (Event A)) (s : Session A)
      → s.held ≡ none
      → s.watch_chan ≡ e ∷ rest
      → stream (take_event e rest s) ≡ stream s
  unfolding take_event
  stream-take_event e rest s h k =
      let r = entries_of s.loop_var s.watch_result_chan in
      ap (λ c. s.written ++ (r ++ c)) (sym k)
      ∙ ap (λ o. s.written ++ (r ++ (held_of o ++ s.watch_chan))) (sym h)

  stream-forward : (e : Event A) (s : Session A) → s.held ≡ some e → stream (forward e s) ≡ stream s
  unfolding forward
  stream-forward e s h =
      let r = entries_of s.loop_var s.watch_result_chan in
      ap (λ x. s.written ++ (x ++ s.watch_chan))
        (entries_of-append s.loop_var s.watch_result_chan (notified e ∷ []))
      ∙ ap (λ x. s.written ++ x) (append_assoc r (e ∷ []) s.watch_chan)
      ∙ ap (λ x. s.written ++ (r ++ (held_of x ++ s.watch_chan))) (sym h)

  stream-write_event :
      (x : Entry A) (rest : List (Entry A)) (s : Session A)
      → s.watch_result_chan ≡ x ∷ rest
      → stream (write_event x rest s) ≡ stream s
  unfolding write_event
  stream-write_event x rest s h =
      let now = read_entry s.loop_var x in
      let r = entries_of s.loop_var rest in
      let c = held_of s.held ++ s.watch_chan in
      append_assoc s.written now (r ++ c)
      ∙ ap (λ y. s.written ++ y) (sym (append_assoc now r c))
      ∙ ap (λ y. s.written ++ (entries_of s.loop_var y ++ c)) (sym h)

  stream-offer_event : (e : Event A) (s : Session A) → stream (offer_event e s) ≡ stream s ++ e ∷ []
  unfolding offer_event
  stream-offer_event e s =
      let w = s.written in
      let r = entries_of s.loop_var s.watch_result_chan in
      let h = held_of s.held in
      let c = s.watch_chan in
      ap (λ x. w ++ (r ++ x)) (sym (append_assoc h c (e ∷ [])))
      ∙ ap (λ x. w ++ x) (sym (append_assoc r (h ++ c) (e ∷ [])))
      ∙ sym (append_assoc w (r ++ (h ++ c)) (e ∷ []))

  kept : (s t : Session A) → stream t ≡ stream s → stream t ≡ stream s ++ []
  kept s t e = e ∙ sym (append-nil (stream s))

  stream-close_result : (s : Session A) → stream (close_result s) ≡ stream s
  unfolding close_result
  stream-close_result s = refl

  stream-leave : (s : Session A) → stream (leave s) ≡ stream s
  unfolding leave
  stream-leave s = refl

  stream-panic_on_leave : (s : Session A) → stream (panic_on_leave s) ≡ stream s
  unfolding panic_on_leave
  stream-panic_on_leave s = refl

  stream-end_session : (s : Session A) → stream (end_session s) ≡ stream s
  unfolding end_session
  stream-end_session s = refl

  stream-clean : (s : Session A) → stream (clean s) ≡ stream s
  unfolding clean
  stream-clean s = refl

  Step-stream :
      {s t : Session A} (st : Step s t)
      → IsListed s
      → AllEncoded (next here st)
      → stream t ≡ stream s ++ offered_by st
  Step-stream {s} {t} (assigns a rest h k e) v n = absurd (ground (arith, v.no_items))
  Step-stream {s} {t} (sends h k e) v n = absurd (ground (arith, v.is_sent))
  Step-stream {s} {t} (takes x rest h k l m e) v n =
      kept s t (ap stream e ∙ stream-take_event x rest s l m)
  Step-stream {s} {t} (forwards x h k e) v n = kept s t (ap stream e ∙ stream-forward x s h)
  Step-stream {s} {t} (closes h k l m n o e) v q = kept s t (ap stream e ∙ stream-close_result s)
  Step-stream {s} {t} (writes x rest h k e) v n =
      kept s t (ap stream e ∙ stream-write_event x rest s k)
  Step-stream {s} {t} (fails x rest h k e) v n = absurd n
  Step-stream {s} {t} (leaves h k e) v n = kept s t (ap stream e ∙ stream-leave s)
  Step-stream {s} {t} (leaves_late h k e) v n = kept s t (ap stream e ∙ stream-panic_on_leave s)
  Step-stream {s} {t} (ends h k l e) v n = kept s t (ap stream e ∙ stream-end_session s)
  Step-stream {s} {t} (offers x h k l e) v n = ap stream e ∙ stream-offer_event x s
  Step-stream {s} {t} (cleans h k e) v n = kept s t (ap stream e ∙ stream-clean s)

  AllEncoded-next :
      {s t u : Session A} (r : Run s t) (st : Step t u)
      → AllEncoded (next r st)
      → AllEncoded r × AllEncoded (next here st)
  AllEncoded-next r (assigns a rest h k e) n = (n, tt)
  AllEncoded-next r (sends h k e) n = (n, tt)
  AllEncoded-next r (takes x rest h k l m e) n = (n, tt)
  AllEncoded-next r (forwards x h k e) n = (n, tt)
  AllEncoded-next r (closes h k l m n o e) q = (q, tt)
  AllEncoded-next r (writes x rest h k e) n = (n, tt)
  AllEncoded-next r (fails x rest h k e) n = absurd n
  AllEncoded-next r (leaves h k e) n = (n, tt)
  AllEncoded-next r (leaves_late h k e) n = (n, tt)
  AllEncoded-next r (ends h k l e) n = (n, tt)
  AllEncoded-next r (offers x h k l e) n = (n, tt)
  AllEncoded-next r (cleans h k e) n = (n, tt)

  Run-IsListed : {s t : Session A} → Run s t → IsListed s → IsListed t
  Run-IsListed here v = v
  Run-IsListed (next r st) v = Step-IsListed st (Run-IsListed r v)

  -- Once the list is sent, and as long as no encoding fails, a watch loses and reorders nothing: in
  -- every interleaving, what the client has been sent followed by what is on its way is what it was
  -- before, followed by the events that the notifications put into its channel, in their order.
  pub Run-stream :
      {s t : Session A} (r : Run s t)
      → IsListed s
      → AllEncoded r
      → stream t ≡ stream s ++ offered_in r
  Run-stream {s} here v n = sym (append-nil (stream s))
  Run-stream {s} (next r st) v n =
      let (before, now) = AllEncoded-next r st n in
      Step-stream st (Run-IsListed r v) now
      ∙ ap (λ x. x ++ offered_by st) (Run-stream r v before)
      ∙ append_assoc (stream s) (offered_in r) (offered_by st)
