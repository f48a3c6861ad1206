-- ===== src/Watch/Heap.antt =====
-- Closing and sending over a list of channels that are open and different.
use nvidia_gpu_scheduler.Prelude.{
  ℕ, ◌≡◌, refl, ap, ◌∙◌, inl, inr, Bool, true, false, ◌||◌, Bool-cases, List, [], ◌∷◌, ◌++◌, some,
  length, ltb, ◌==◌, arith, if◌then◌else◌,
}
use nvidia_gpu_scheduler.Watch.{Event, Chan, put, close, send_or_drop, close_all, send_all}

abbrev pub has_chan : List ℕ → ℕ → Bool
has_chan [] c = false
has_chan (x ∷ xs) c = x == c || has_chan xs c

abbrev pub Different : List ℕ → Type 0
Different [] = Unit {0}
Different (x ∷ xs) = (has_chan xs x ≡ false) × Different xs

module _ {A : Type 0} where
  abbrev pub AllOpen : (ℕ → Chan A) → List ℕ → Type 0
  AllOpen heap [] = Unit {0}
  AllOpen heap (x ∷ xs) = ((heap x).is_closed ≡ false) × AllOpen heap xs

  -- A channel after an event was offered to it: it is dropped where the buffer is full.
  abbrev pub offered : Event A → Chan A → Chan A
  offered e c = if ltb (length c.buffer) c.cap then record c { buffer = c.buffer ++ e ∷ [] } else c

  abbrev pub shut : Chan A → Chan A
  shut c = record c { is_closed = true }

  pub AllOpen-agree :
      (heap h : ℕ → Chan A) (xs : List ℕ)
      → ((c : ℕ) → has_chan xs c ≡ true → (h c).is_closed ≡ (heap c).is_closed)
      → AllOpen heap xs
      → AllOpen h xs
  AllOpen-agree heap h [] same a = tt
  AllOpen-agree heap h (x ∷ xs) same a =
      (same x (ground arith) ∙ a.0, AllOpen-agree heap h xs (λ c k. same c (ground (arith, k))) a.1)

  pub send_or_drop_lem :
      (e : Event A) (x : ℕ) (heap : ℕ → Chan A)
      → (heap x).is_closed ≡ false
      → (h : ℕ → Chan A) × (send_or_drop e x heap ≡ some h)
        × ((c : ℕ) → h c ≡ (if x == c then offered e (heap c) else heap c))
  unfolding send_or_drop
  send_or_drop_lem e x heap a = elim (Bool-cases (ltb (length (heap x).buffer) (heap x).cap)) [
    | inl room ↦ (
      put heap x (record (heap x) { buffer = (heap x).buffer ++ e ∷ [] }),
      rw (a, room),
      λ c. elim (Bool-cases (x == c)) [
        | inl here ↦ (let same : x ≡ c = ground arith in rw (← same) (rw room (ground arith)))
        | inr other ↦ rw other
      ],
    )
    | inr full ↦ (
      heap,
      rw (a, full),
      λ c. elim (Bool-cases (x == c)) [
        | inl here ↦ (let same : x ≡ c = ground arith in rw (← same) (rw full (ground arith)))
        | inr other ↦ rw other
      ],
    )
  ]

  is_closed-offered :
      (e : Event A) (b : Bool) (c : Chan A) → (if b then offered e c else c).is_closed ≡ c.is_closed
  is_closed-offered e b c = ground arith

  merge :
      (e : Event A) (x : ℕ) (xs : List ℕ) (old mid : Chan A) (c : ℕ)
      → has_chan xs x ≡ false
      → mid ≡ (if x == c then offered e old else old)
      → (if has_chan xs c then offered e mid else mid)
        ≡ (if x == c || has_chan xs c then offered e old else old)
  merge e x xs old mid c fresh by1 = elim (Bool-cases (x == c)) [
    | inl here ↦
        (let absent : has_chan xs c ≡ false = ground arith in rw (absent, here) (rw here at by1))
    | inr other ↦ (let same : mid ≡ old = rw other at by1 in rw (other, same))
  ]

  -- Every channel of the list is offered the event once, and no other changes.
  pub send_all_lem :
      (e : Event A) (chs : List ℕ) (heap : ℕ → Chan A)
      → Different chs
      → AllOpen heap chs
      → (h : ℕ → Chan A) × (send_all e chs heap ≡ some h)
        × ((c : ℕ) → h c ≡ (if has_chan chs c then offered e (heap c) else heap c))
  unfolding send_all
  send_all_lem e [] heap d a = (heap, refl, λ c. refl)
  send_all_lem e (x ∷ xs) heap d a =
      let (h1, sent, by1) = send_or_drop_lem e x heap a.0 in
      let still : AllOpen h1 xs =
        AllOpen-agree heap h1 xs
          (λ c _. ap (λ v. v.is_closed) (by1 c) ∙ is_closed-offered e (x == c) (heap c)) a.1 in
      let (h, rest, by2) = send_all_lem e xs h1 d.1 still in
      (h, rw (sent, send_all) rest, λ c. by2 c ∙ merge e x xs (heap c) (h1 c) c d.0 (by1 c))

  pub close_lem :
      (x : ℕ) (heap : ℕ → Chan A)
      → (heap x).is_closed ≡ false
      → (h : ℕ → Chan A) × (close x heap ≡ some h)
        × ((c : ℕ) → h c ≡ (if x == c then shut (heap c) else heap c))
  unfolding close
  close_lem x heap a = (
    put heap x (shut (heap x)),
    rw a,
    λ c. elim (Bool-cases (x == c)) [
      | inl here ↦ (let same : x ≡ c = ground arith in rw (← same))
      | inr other ↦ rw other
    ],
  )

  shut-once :
      (x : ℕ) (xs : List ℕ) (old mid : Chan A) (c : ℕ)
      → has_chan xs x ≡ false
      → mid ≡ (if x == c then shut old else old)
      → (if has_chan xs c then shut mid else mid)
        ≡ (if x == c || has_chan xs c then shut old else old)
  shut-once x xs old mid c fresh by1 = elim (Bool-cases (x == c)) [
    | inl here ↦
        (let absent : has_chan xs c ≡ false = ground arith in rw (absent, here) (rw here at by1))
    | inr other ↦ (let same : mid ≡ old = rw other at by1 in rw (other, same))
  ]

  -- Every channel of the list is closed, and no other changes.
  pub close_all_lem :
      (chs : List ℕ) (heap : ℕ → Chan A)
      → Different chs
      → AllOpen heap chs
      → (h : ℕ → Chan A) × (close_all chs heap ≡ some h)
        × ((c : ℕ) → h c ≡ (if has_chan chs c then shut (heap c) else heap c))
  unfolding close_all
  close_all_lem [] heap d a = (heap, refl, λ c. refl)
  close_all_lem (x ∷ xs) heap d a =
      let (h1, closed, by1) = close_lem x heap a.0 in
      let still : AllOpen h1 xs = AllOpen-agree heap h1 xs (λ c k. untouched c (by1 c) k) a.1 in
      let (h, rest, by2) = close_all_lem xs h1 d.1 still in
      (h, rw (closed, close_all) rest, λ c. by2 c ∙ shut-once x xs (heap c) (h1 c) c d.0 (by1 c))
    where
      untouched :
          (c : ℕ) {mid : Chan A}
          → mid ≡ (if x == c then shut (heap c) else heap c)
          → has_chan xs c ≡ true
          → mid.is_closed ≡ (heap c).is_closed
      untouched c e k =
          let other : (x == c) ≡ false = ground arith in ap (λ v. v.is_closed) (rw other at e)
