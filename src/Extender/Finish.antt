-- ===== src/Extender/Finish.antt =====
-- How many steps the workers of a request have left, and the run of a single worker (checkNode in
-- pkg/gpuserver/router/schedulerserver/schedulerserver.go).
use nvidia_gpu_scheduler.Prelude.{
  ℕ, ◌+◌, ◌<◌, ◌≡◌, refl, true, false, List, [], ◌∷◌, ◌++◌, String, length, length-append, arith,
}
use nvidia_gpu_scheduler.Extender.Workers.{
  Piece, Handling, Step, refuse, reserve, write, Run, here, next, IsDone, begin, reserve_place,
  write_place,
}

-- The steps that are left.
abbrev pub steps_left : Handling → ℕ
steps_left s = length s.idle + length s.idle + length s.reserved

module _ {ℓ} {A : Type ℓ} where
  length_middle : (xs ys : List A) (p : A) → length (xs ++ p ∷ ys) ≡ length (xs ++ ys) + 1
  length_middle xs ys p = omega (arith, length-append xs (p ∷ ys), length-append xs ys)

-- Each step of a worker uses up one of the steps that are left, so that the workers cannot go on for
-- ever.
pub Step-decreases : {s t : Handling} → Step s t → steps_left t < steps_left s
unfolding reserve_place write_place
Step-decreases (refuse xs ys n e h) = rw (h, e) (omega (arith, length_middle xs ys (n, false)))
Step-decreases (reserve xs ys n e h) = rw (h, e) (omega (arith, length_middle xs ys (n, true)))
Step-decreases (write us vs k n e h) = rw (h, e) (omega (arith, length_middle us vs (k, n)))

prepend : {s t u : Handling} → Step s t → Run t u → Run s u
prepend st here = next here st
prepend st (next r st') = next (prepend st r) st'

-- The run of one worker that writes each place as soon as it is reserved.
unfoldable pub write_all : List (ℕ × String) → Handling → Handling
unfolding write_place
write_all [] s = s
write_all ((k, n) ∷ rs) s = write_all rs (write_place k n (record s { reserved = rs }))

unfoldable pub work : List Piece → Handling → Handling
unfolding write_all reserve_place
work [] s = write_all s.reserved s
work ((n, false) ∷ ps) s = work ps (record s { idle = ps })
work ((n, true) ∷ ps) s = work ps (reserve_place n (record s { idle = ps }))

write_all-Run : (rs : List (ℕ × String)) (s : Handling) → s.reserved ≡ rs → Run s (write_all rs s)
unfolding write_all
write_all-Run [] s e = here
write_all-Run ((k, n) ∷ rs) s e =
    prepend (write [] rs k n e refl)
      (write_all-Run rs (write_place k n (record s { reserved = rs })) refl)

write_all-IsDone :
    (rs : List (ℕ × String)) (s : Handling)
    → s.idle ≡ []
    → s.reserved ≡ rs
    → IsDone (write_all rs s)
unfolding write_all
write_all-IsDone [] s i e = record { none_idle = i; none_reserved = e }
write_all-IsDone ((k, n) ∷ rs) s i e =
    write_all-IsDone rs (write_place k n (record s { reserved = rs })) i refl

work-Run : (ps : List Piece) (s : Handling) → s.idle ≡ ps → Run s (work ps s)
unfolding work
work-Run [] s e = write_all-Run s.reserved s refl
work-Run ((n, false) ∷ ps) s e =
    prepend (refuse [] ps n e refl) (work-Run ps (record s { idle = ps }) refl)
work-Run ((n, true) ∷ ps) s e =
    prepend (reserve [] ps n e refl) (work-Run ps (reserve_place n (record s { idle = ps })) refl)

work-IsDone : (ps : List Piece) (s : Handling) → s.idle ≡ ps → IsDone (work ps s)
unfolding work
work-IsDone [] s e = write_all-IsDone s.reserved s e refl
work-IsDone ((n, false) ∷ ps) s e = work-IsDone ps (record s { idle = ps }) refl
work-IsDone ((n, true) ∷ ps) s e = work-IsDone ps (reserve_place n (record s { idle = ps })) refl

pub work-begin :
    (pieces : List Piece)
    → Run (begin pieces) (work pieces (begin pieces)) × IsDone (work pieces (begin pieces))
unfolding begin
work-begin pieces = (work-Run pieces (begin pieces) refl, work-IsDone pieces (begin pieces) refl)
