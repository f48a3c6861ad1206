-- ===== src/Watch/Races.antt =====
-- What goes wrong where a client goes away in the middle of a notification, or after CleanWatcher:
-- the lock of the index is not held while the channels are used.
use nvidia_gpu_scheduler.Prelude.{
  ℕ, ◌≡◌, refl, ap, ◌∙◌, inl, inr, Bool, true, false, Bool-cases, List, [], ◌∷◌, ◌++◌, some, none,
  String, lookup, ◌==◌, arith, if◌then◌else◌,
}
use nvidia_gpu_scheduler.Watch.{
  Event, Chan, WatchIndex, close, send_or_drop, send_all, list_watcher, clean_watcher, disconnect,
}
use nvidia_gpu_scheduler.Watch.Heap.{
  has_chan, Different, AllOpen, AllOpen-agree, shut, offered, send_or_drop_lem, send_all_lem,
}
use nvidia_gpu_scheduler.Watch.Laws.{
  IsLive, watched, disconnect_lem, clean_watcher_lem, has_chan-lookup,
}

Different-append : (xs ys : List ℕ) → Different (xs ++ ys) → Different xs
Different-append [] ys d = tt
Different-append (x ∷ xs) ys d = (has_chan-append xs ys x d.0, Different-append xs ys d.1)
  where
    has_chan-append :
        (xs ys : List ℕ) (c : ℕ) → has_chan (xs ++ ys) c ≡ false → has_chan xs c ≡ false
    has_chan-append [] ys c h = refl
    has_chan-append (x ∷ xs) ys c h = ground (arith, has_chan-append xs ys c)

module _ {A : Type 0} where
  send_or_drop_closed :
      (e : Event A) (x : ℕ) (heap : ℕ → Chan A)
      → (heap x).is_closed ≡ true
      → send_or_drop e x heap ≡ none
  unfolding send_or_drop
  send_or_drop_closed e x heap h = rw h

  same_flag :
      (e : Event A) (b : Bool) (v : Chan A) → (if b then offered e v else v).is_closed ≡ v.is_closed
  same_flag e b v = ground arith

  -- A list with a closed channel cannot be sent to.
  send_all_closed :
      (e : Event A) (chs : List ℕ) (heap : ℕ → Chan A) (c : ℕ)
      → has_chan chs c ≡ true
      → (heap c).is_closed ≡ true
      → send_all e chs heap ≡ none
  unfolding send_all
  send_all_closed e [] heap c h k = cc
  send_all_closed e (x ∷ xs) heap c h k = elim (Bool-cases (heap x).is_closed) [
    | inl shut_now ↦ rw (send_or_drop_closed e x heap shut_now, send_all)
    | inr open_now ↦
        (let (h1, sent, by) = send_or_drop_lem e x heap open_now in
          rw (sent, send_all)
            (send_all_closed e xs h1 c (later open_now)
              (ap (λ v. v.is_closed) (by c) ∙ same_flag e (x == c) (heap c) ∙ k)))
  ]
    where
      later : (heap x).is_closed ≡ false → has_chan xs c ≡ true
      later open_now = elim (Bool-cases (x == c)) [
        | inl here ↦ (let same : x ≡ c = ground arith in cc (rw same at open_now))
        | inr other ↦ rw other at h
      ]

  AllOpen-append : (heap : ℕ → Chan A) (xs ys : List ℕ) → AllOpen heap (xs ++ ys) → AllOpen heap xs
  AllOpen-append heap [] ys a = tt
  AllOpen-append heap (x ∷ xs) ys a = (a.0, AllOpen-append heap xs ys a.1)

  -- If the watched channels are open and different, and a notification, which lists the channels
  -- once, has sent to those of a front part of its list when the client of a watcher goes away whose
  -- channel is not among them, then the notification panics in the rest of its list: the handler has
  -- closed a channel that is still to come.
  pub notify_after_disconnect :
      (e : Event A) (uuid : String) (ch : ℕ) (w : WatchIndex A) (served rest : List ℕ)
      → IsLive w
      → list_watcher w ≡ served ++ rest
      → lookup uuid w.chan_watch_index ≡ some ch
      → has_chan rest ch ≡ true
      → (h : ℕ → Chan A) × (t : WatchIndex A) × (send_all e served w.heap ≡ some h)
        × (disconnect uuid ch (record w { heap = h }) ≡ some t)
        × (send_all e rest t.heap ≡ none)
  unfolding list_watcher
  notify_after_disconnect e uuid ch w served rest v split found ahead =
      let different : Different (served ++ rest) = rw split at v.different in
      let all_open : AllOpen w.heap (served ++ rest) = rw split at v.all_open in
      let (h, sent, by) =
        send_all_lem e served w.heap (Different-append served rest different)
          (AllOpen-append w.heap served rest all_open) in
      let live : IsLive (record w { heap = h }) = record {
        different = v.different;
        all_open =
            AllOpen-agree w.heap h (watched w)
              (λ c _. ap (λ x. x.is_closed) (by c) ∙ same_flag e (has_chan served c) (w.heap c))
              v.all_open;
      } in
      let (t, gone, still, unwatched, now) =
        disconnect_lem uuid ch (record w { heap = h }) live found in
      (
        h,
        t,
        sent,
        gone,
        send_all_closed e rest t.heap ch ahead (ap (λ c. c.is_closed) (now ch) ∙ self (h ch)),
      )
    where
      self : (c : Chan A) → (if ch == ch then shut c else c).is_closed ≡ true
      self c = ground arith

  -- If a client goes away after CleanWatcher has run, its handler panics: the channel is closed a
  -- second time.
  pub disconnect_after_clean :
      (uuid other : String) (ch : ℕ) (w : WatchIndex A)
      → IsLive w
      → lookup uuid w.chan_watch_index ≡ some ch
      → (t : WatchIndex A) × (clean_watcher w ≡ some t) × (disconnect other ch t ≡ none)
  unfolding disconnect
  disconnect_after_clean uuid other ch w v found =
      let (t, cleaned, empty, by) = clean_watcher_lem w v in
      (t, cleaned, rw (closed_twice t (by ch)))
    where
      closed_twice :
          (t : WatchIndex A)
          → t.heap ch ≡ (if has_chan (watched w) ch then shut (w.heap ch) else w.heap ch)
          → close ch t.heap ≡ none
      closed_twice t e =
          let is_shut : (t.heap ch).is_closed ≡ true =
            ap (λ c. c.is_closed) (rw (has_chan-lookup uuid w.chan_watch_index ch found) at e) in
          rw is_shut
