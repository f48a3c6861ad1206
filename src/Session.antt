-- ===== src/Session.antt =====
-- A watch request of pkg/gpuserver/router/metricserver/metricserver.go, getGpuPodHandler and
-- getGpuNodeHandler, which are the same code on two resources: the handler, the goroutine that it
-- starts, and watchResultChan between them. The scheduler of the runtime interleaves their steps.
-- The module of the program says go 1.17, where a loop has one variable for all of its rounds:
-- the goroutine sends the address of that variable, which is read when the event is encoded.
pub mod Request
pub mod Delivery
pub mod Listing
pub mod Stream
pub mod Stuck
use nvidia_gpu_scheduler.Prelude.{
  ℕ, Bool, true, false, List, [], ◌∷◌, ◌++◌, Option, none, some, String, ◌≡◌, ◌<◌, length, str_eq,
  if◌then◌else◌,
}
use nvidia_gpu_scheduler.Watch.{Event, synced}

-- What stands in watchResultChan: an event with the address of the loop's variable, or one that came
-- through watchChan.
pub data Entry (A : Type 0) : Type 0 where
  listed : Entry A
  notified : Event A → Entry A

-- make(chan *watcher.GpuPodEvent, 10) and make(chan interface{}, 1)
abbrev pub result_cap : ℕ
result_cap = 10

abbrev pub watch_cap : ℕ
watch_cap = 1

module _ (A : Type 0) where
  pub record Session : Type 0 where
    -- the items that the loop has not come to
    pub items : List A
    -- the loop's variable, and whether its value still has to be sent
    pub loop_var : Option A
    pub is_sending : Bool
    -- what the goroutine has taken from watchChan and not yet passed on
    pub held : Option (Event A)
    pub watch_chan : List (Event A)
    pub is_watch_closed : Bool
    pub watch_result_chan : List (Entry A)
    pub is_result_closed : Bool
    -- what the client has been sent
    pub written : List (Event A)
    -- the handler has returned
    pub is_done : Bool
    -- by a panic, from which net/http recovers
    pub has_panicked : Bool
    -- the watcher is in the index
    pub is_watching : Bool

module _ {A : Type 0} where
  -- The start of the loops, with what List returned.
  unfoldable pub begin_session : List A → Session A
  begin_session items = record {
    items = items;
    loop_var = none;
    is_sending = false;
    held = none;
    watch_chan = [];
    is_watch_closed = false;
    watch_result_chan = [];
    is_result_closed = false;
    written = [];
    is_done = false;
    has_panicked = false;
    is_watching = true;
  }

  -- The event that an entry stands for when it is encoded.
  abbrev pub read_entry : Option A → Entry A → List (Event A)
  read_entry v (notified e) = e ∷ []
  read_entry none listed = []
  read_entry (some a) listed = (a, synced) ∷ []

  -- for _, gp := range gpList.Items
  unfoldable pub assign : A → List A → Session A → Session A
  assign a rest s = record s { items = rest; loop_var = some a; is_sending = true }

  -- watchResultChan <- watcher.NewGpuPodEvent(&gp, watcher.Synced)
  unfoldable pub send_listed : Session A → Session A
  send_listed s = record s {
    is_sending = false;
    watch_result_chan = s.watch_result_chan ++ listed ∷ [];
  }

  -- for gpe := range watchChan
  unfoldable pub take_event : Event A → List (Event A) → Session A → Session A
  take_event e rest s = record s { held = some e; watch_chan = rest }

  -- watchResultChan <- gpe.(*watcher.GpuPodEvent)
  unfoldable pub forward : Event A → Session A → Session A
  forward e s = record s { held = none; watch_result_chan = s.watch_result_chan ++ notified e ∷ [] }

  -- close(watchResultChan)
  unfoldable pub close_result : Session A → Session A
  close_result s = record s { is_result_closed = true }

  -- case wevent, ok := <-watchResultChan, where the event is encoded
  unfoldable pub write_event : Entry A → List (Entry A) → Session A → Session A
  write_event x rest s = record s {
    watch_result_chan = rest;
    written = s.written ++ read_entry s.loop_var x;
  }

  -- The encoding fails: the handler returns at once.
  unfoldable pub fail_event : List (Entry A) → Session A → Session A
  fail_event rest s = record s { watch_result_chan = rest; is_done = true }

  -- case <-r.Context().Done()
  unfoldable pub leave : Session A → Session A
  leave s = record s { is_watch_closed = true; is_done = true; is_watching = false }

  -- The same after CleanWatcher: DelWatcher, and then the close of a closed channel panics.
  unfoldable pub panic_on_leave : Session A → Session A
  panic_on_leave s = record s { is_done = true; is_watching = false; has_panicked = true }

  -- The closed watchResultChan is empty.
  unfoldable pub end_session : Session A → Session A
  end_session s = record s { is_done = true }

  -- A notification, while the watcher is in the index: dropped where watchChan is full.
  unfoldable pub offer_event : Event A → Session A → Session A
  offer_event e s = record s { watch_chan = s.watch_chan ++ e ∷ [] }

  -- CleanWatcher
  unfoldable pub clean : Session A → Session A
  clean s = record s { is_watch_closed = true; is_watching = false }

  pub data Step (s t : Session A) : Type 0 where
    assigns :
        (a : A) (rest : List A)
        → s.items ≡ a ∷ rest
        → s.is_sending ≡ false
        → t ≡ assign a rest s
        → Step s t
    sends :
        s.is_sending ≡ true → length s.watch_result_chan < result_cap → t ≡ send_listed s → Step s t
    takes :
        (e : Event A) (rest : List (Event A))
        → s.items ≡ []
        → s.is_sending ≡ false
        → s.held ≡ none
        → s.watch_chan ≡ e ∷ rest
        → t ≡ take_event e rest s
        → Step s t
    forwards :
        (e : Event A)
        → s.held ≡ some e
        → length s.watch_result_chan < result_cap
        → t ≡ forward e s
        → Step s t
    closes :
        s.items ≡ []
        → s.is_sending ≡ false
        → s.held ≡ none
        → s.watch_chan ≡ []
        → s.is_watch_closed ≡ true
        → s.is_result_closed ≡ false
        → t ≡ close_result s
        → Step s t
    writes :
        (x : Entry A) (rest : List (Entry A))
        → s.is_done ≡ false
        → s.watch_result_chan ≡ x ∷ rest
        → t ≡ write_event x rest s
        → Step s t
    fails :
        (x : Entry A) (rest : List (Entry A))
        → s.is_done ≡ false
        → s.watch_result_chan ≡ x ∷ rest
        → t ≡ fail_event rest s
        → Step s t
    leaves : s.is_done ≡ false → s.is_watch_closed ≡ false → t ≡ leave s → Step s t
    leaves_late : s.is_done ≡ false → s.is_watch_closed ≡ true → t ≡ panic_on_leave s → Step s t
    ends :
        s.is_done ≡ false
        → s.watch_result_chan ≡ []
        → s.is_result_closed ≡ true
        → t ≡ end_session s
        → Step s t
    offers :
        (e : Event A)
        → s.is_watching ≡ true
        → s.is_watch_closed ≡ false
        → length s.watch_chan < watch_cap
        → t ≡ offer_event e s
        → Step s t
    cleans : s.is_watching ≡ true → s.is_watch_closed ≡ false → t ≡ clean s → Step s t

  pub data Run (s : Session A) : Session A → Type 0 where
    here : Run s s
    next : {t u : Session A} → Run s t → Step t u → Run s u

  pub Run-trans : {s t u : Session A} → Run s t → Run t u → Run s u
  Run-trans r here = r
  Run-trans r (next q st) = next (Run-trans r q) st
