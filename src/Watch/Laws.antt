-- ===== src/Watch/Laws.antt =====
-- The methods of WatchIndex and the notification, one request at a time, on an index whose channels
-- are open and different.
use nvidia_gpu_scheduler.Prelude.{
  ℕ, ◌≡◌, refl, ap, inl, inr, true, false, Bool-cases, List, [], ◌∷◌, some, String, str_eq, Map,
  insert, delete, lookup, values, ◌==◌, arith, if◌then◌else◌,
}
use nvidia_gpu_scheduler.Watch.{
  EventType, Chan, WatchIndex, add_watcher, clean_watcher, notify_watchers, disconnect,
}
use nvidia_gpu_scheduler.Watch.Heap.{
  has_chan, Different, AllOpen, AllOpen-agree, offered, shut, send_all_lem, close_all_lem,
  close_lem,
}

has_chan-insert :
    (uuid : String) (ch : ℕ) (m : Map ℕ) (c : ℕ)
    → has_chan (values m) c ≡ false
    → (ch == c) ≡ false
    → has_chan (values (insert uuid ch m)) c ≡ false
unfolding insert
has_chan-insert uuid ch [] c h k = ground arith
has_chan-insert uuid ch ((j, x) ∷ m) c h k = ground (arith, has_chan-insert uuid ch m c)

Different-insert :
    (uuid : String) (ch : ℕ) (m : Map ℕ)
    → has_chan (values m) ch ≡ false
    → Different (values m)
    → Different (values (insert uuid ch m))
unfolding insert
Different-insert uuid ch [] h d = (refl, tt)
Different-insert uuid ch ((j, x) ∷ m) h d = elim (Bool-cases (str_eq j uuid)) [
  | inl same ↦ rw same (ground arith, d.1)
  | inr other ↦ rw other (
    has_chan-insert uuid ch m x d.0 (ground arith),
    Different-insert uuid ch m (ground arith) d.1,
  )
]

has_chan-delete :
    (uuid : String) (m : Map ℕ) (c : ℕ)
    → has_chan (values m) c ≡ false
    → has_chan (values (delete uuid m)) c ≡ false
unfolding delete
has_chan-delete uuid [] c h = refl
has_chan-delete uuid ((j, x) ∷ m) c h = ground (arith, has_chan-delete uuid m c)

Different-delete :
    (uuid : String) (m : Map ℕ) → Different (values m) → Different (values (delete uuid m))
unfolding delete
Different-delete uuid [] d = tt
Different-delete uuid ((j, x) ∷ m) d = elim (Bool-cases (str_eq j uuid)) [
  | inl same ↦ rw same (Different-delete uuid m d.1)
  | inr other ↦ rw other (has_chan-delete uuid m x d.0, Different-delete uuid m d.1)
]

pub has_chan-lookup :
    (uuid : String) (m : Map ℕ) (c : ℕ) → lookup uuid m ≡ some c → has_chan (values m) c ≡ true
unfolding lookup
has_chan-lookup uuid [] c h = cc
has_chan-lookup uuid ((j, x) ∷ m) c h = ground (arith, has_chan-lookup uuid m c)

-- The channel of a watcher is watched no more once the watcher is deleted.
has_chan-delete_self :
    (uuid : String) (m : Map ℕ) (c : ℕ)
    → Different (values m)
    → lookup uuid m ≡ some c
    → has_chan (values (delete uuid m)) c ≡ false
unfolding lookup delete
has_chan-delete_self uuid [] c d h = cc
has_chan-delete_self uuid ((j, x) ∷ m) c d h = elim (Bool-cases (str_eq j uuid)) [
  | inl same ↦ (let here : x ≡ c = ground arith in rw (same, ← here) (has_chan-delete uuid m x d.0))
  | inr other ↦
      (let there : lookup uuid m ≡ some c = rw other at h in
        rw other (
          ground
            (arith, has_chan-lookup uuid m c there, d.0, has_chan-delete_self uuid m c d.1 there)))
]

module _ {A : Type 0} where
  abbrev pub watched : WatchIndex A → List ℕ
  watched w = values w.chan_watch_index

  pub record IsLive (w : WatchIndex A) : Type 0 where
    pub different : Different (watched w)
    pub all_open : AllOpen w.heap (watched w)

  -- If the watched channels are open and different, a notification does not panic: each watched
  -- channel that has room holds the event at its end, each full one drops it, no other channel
  -- changes, the watchers stay, and the watched channels are open and different as before.
  pub notify_watchers_lem :
      (a : A) (etype : EventType) (w : WatchIndex A)
      → IsLive w
      → (t : WatchIndex A) × (notify_watchers a etype w ≡ some t)
        × (t.chan_watch_index ≡ w.chan_watch_index)
        × ((c : ℕ)
            → t.heap c
              ≡ (if has_chan (watched w) c then offered (a, etype) (w.heap c) else w.heap c))
        × IsLive t
  unfolding notify_watchers
  notify_watchers_lem a etype w v =
      let (h, sent, by) = send_all_lem (a, etype) (watched w) w.heap v.different v.all_open in
      (
        record w { heap = h },
        rw sent,
        refl,
        by,
        record {
          different = v.different;
          all_open = AllOpen-agree w.heap h (watched w) (λ c _. keeps c (by c)) v.all_open;
        },
      )
    where
      keeps :
          (c : ℕ) {x : Chan A}
          → x ≡ (if has_chan (watched w) c then offered (a, etype) (w.heap c) else w.heap c)
          → x.is_closed ≡ (w.heap c).is_closed
      keeps c e = ground arith

  -- If the watched channels are open and different, CleanWatcher does not panic: it closes exactly the
  -- watched channels, and no watcher is left.
  pub clean_watcher_lem :
      (w : WatchIndex A)
      → IsLive w
      → (t : WatchIndex A) × (clean_watcher w ≡ some t)
        × (watched t ≡ [])
        × ((c : ℕ) → t.heap c ≡ (if has_chan (watched w) c then shut (w.heap c) else w.heap c))
  unfolding clean_watcher
  clean_watcher_lem w v =
      let (h, closed, by) = close_all_lem (watched w) w.heap v.different v.all_open in
      (record { chan_watch_index = []; heap = h }, rw (closed, clean_watcher), refl, by)

  AllOpen-insert :
      (heap : ℕ → Chan A) (uuid : String) (ch : ℕ) (m : Map ℕ)
      → (heap ch).is_closed ≡ false
      → AllOpen heap (values m)
      → AllOpen heap (values (insert uuid ch m))
  unfolding insert
  AllOpen-insert heap uuid ch [] o a = (o, tt)
  AllOpen-insert heap uuid ch ((j, x) ∷ m) o a = elim (Bool-cases (str_eq j uuid)) [
    | inl same ↦ rw same (o, a.1)
    | inr other ↦ rw other (a.0, AllOpen-insert heap uuid ch m o a.1)
  ]

  AllOpen-delete :
      (heap : ℕ → Chan A) (uuid : String) (m : Map ℕ)
      → AllOpen heap (values m)
      → AllOpen heap (values (delete uuid m))
  unfolding delete
  AllOpen-delete heap uuid [] a = tt
  AllOpen-delete heap uuid ((j, x) ∷ m) a = elim (Bool-cases (str_eq j uuid)) [
    | inl same ↦ rw same (AllOpen-delete heap uuid m a.1)
    | inr other ↦ rw other (a.0, AllOpen-delete heap uuid m a.1)
  ]

  AllOpen-chan :
      (heap : ℕ → Chan A) (chs : List ℕ) (c : ℕ)
      → AllOpen heap chs
      → has_chan chs c ≡ true
      → (heap c).is_closed ≡ false
  AllOpen-chan heap [] c a h = cc
  AllOpen-chan heap (x ∷ xs) c a h = elim (Bool-cases (x == c)) [
    | inl here ↦ (let same : x ≡ c = ground arith in rw (← same) a.0)
    | inr other ↦ AllOpen-chan heap xs c a.1 (rw other at h)
  ]

  -- A new request registers a channel that is open and that nobody watches.
  pub add_watcher-IsLive :
      (uuid : String) (ch : ℕ) (w : WatchIndex A)
      → IsLive w
      → (w.heap ch).is_closed ≡ false
      → has_chan (watched w) ch ≡ false
      → IsLive (add_watcher uuid ch w)
  unfolding add_watcher
  add_watcher-IsLive uuid ch w v o fresh = record {
    different = Different-insert uuid ch w.chan_watch_index fresh v.different;
    all_open = AllOpen-insert w.heap uuid ch w.chan_watch_index o v.all_open;
  }

  -- If the watched channels are open and different, and the client of a watcher that is still in the
  -- index goes away, nothing panics: its channel is closed and watched no more, the other channels
  -- stay as they are, and the watched channels are open and different as before.
  pub disconnect_lem :
      (uuid : String) (ch : ℕ) (w : WatchIndex A)
      → IsLive w
      → lookup uuid w.chan_watch_index ≡ some ch
      → (t : WatchIndex A) × (disconnect uuid ch w ≡ some t)
        × IsLive t
        × (has_chan (watched t) ch ≡ false)
        × ((c : ℕ) → t.heap c ≡ (if ch == c then shut (w.heap c) else w.heap c))
  unfolding disconnect
  disconnect_lem uuid ch w v found =
      let m = w.chan_watch_index in
      let open_now =
        AllOpen-chan w.heap (values m) ch v.all_open (has_chan-lookup uuid m ch found) in
      let gone = has_chan-delete_self uuid m ch v.different found in
      let (h, closed, by) = close_lem ch w.heap open_now in
      (
        record { chan_watch_index = delete uuid m; heap = h },
        rw closed,
        record {
          different = Different-delete uuid m v.different;
          all_open =
              AllOpen-agree w.heap h (values (delete uuid m)) (λ c k. kept c gone k (by c))
                (AllOpen-delete w.heap uuid m v.all_open);
        },
        gone,
        by,
      )
    where
      kept :
          (c : ℕ) {x : Chan A}
          → has_chan (values (delete uuid w.chan_watch_index)) ch ≡ false
          → has_chan (values (delete uuid w.chan_watch_index)) c ≡ true
          → x ≡ (if ch == c then shut (w.heap c) else w.heap c)
          → x.is_closed ≡ (w.heap c).is_closed
      kept c gone k e = elim (Bool-cases (ch == c)) [
        | inl here ↦ (let same : ch ≡ c = ground arith in absurd (ground arith))
        | inr other ↦ ap (λ y. y.is_closed) (rw other at e)
      ]
