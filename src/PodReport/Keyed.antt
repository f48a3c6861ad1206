-- ===== src/PodReport/Keyed.antt =====
-- The map of a round: every pod under its own key, once.
use nvidia_gpu_scheduler.Prelude.{
  ◌≡◌, refl, sym, ap, ◌∙◌, inl, inr, Bool, Bool-cases, true, false, ◌||◌, [], ◌∷◌, Option, none,
  some, String, str_eq, eq_iff, Map, lookup, insert, delete, lookup-insert, lookup-delete, arith,
  if◌then◌else◌,
}
use nvidia_gpu_scheduler.Report.{PodResources}
use nvidia_gpu_scheduler.Report.Content.{some_container, is_busy}
use nvidia_gpu_scheduler.PodReport.{podidx}

-- Every pod stands under its own key, and no key stands twice.
unfoldable pub IsKeyed : Map PodResources → Type 0
IsKeyed [] = Unit
IsKeyed ((k, pr) ∷ m) = (k ≡ podidx pr) × (lookup k m ≡ none) × IsKeyed m

other_way : (j k : String) → str_eq j k ≡ false → str_eq k j ≡ false
other_way j k h = ground (arith, eq_iff j k, eq_iff k j)

pub insert-IsKeyed :
    (k : String) (pr : PodResources) (m : Map PodResources)
    → k ≡ podidx pr
    → IsKeyed m
    → IsKeyed (insert k pr m)
unfolding IsKeyed insert lookup
insert-IsKeyed k pr [] e v = (e, refl, tt)
insert-IsKeyed k pr ((j, old) ∷ m) e (own, alone, v) = elim (Bool-cases (str_eq j k)) [
  | inl same ↦ rw same ((eq_iff j k).0 same ∙ e, alone, v)
  | inr other ↦
      rw other
        (own, lookup-insert k j pr m ∙ rw (other_way j k other) alone, insert-IsKeyed k pr m e v)
]

pub delete-IsKeyed : (k : String) (m : Map PodResources) → IsKeyed m → IsKeyed (delete k m)
unfolding IsKeyed delete lookup
delete-IsKeyed k [] v = tt
delete-IsKeyed k ((j, old) ∷ m) (own, alone, v) = elim (Bool-cases (str_eq j k)) [
  | inl same ↦ rw same (delete-IsKeyed k m v)
  | inr other ↦
      rw other (own, lookup-delete k j m ∙ rw (other_way j k other) alone, delete-IsKeyed k m v)
]

false_or : (a b : Bool) → a ≡ false → (a || b) ≡ true → b ≡ true
false_or a b h k = ground arith

some_or : PodResources → Option PodResources → PodResources
some_or p none = p
some_or p (some q) = q

pub some_inj : {p q : PodResources} → some p ≡ some q → p ≡ q
unfolding some_or
some_inj {p} h = ap (some_or p) h

or_true : (b : Bool) → (b || true) ≡ true
or_true b = ground arith

pub none_some : {A : Type 0} (pr : PodResources) → none ≡ some pr → A
none_some pr h = absurd (ground arith)

pub if_true : {A : Type 0} {b : Bool} (x y : A) → b ≡ true → (if b then x else y) ≡ x
if_true x y h = rw h refl

pub if_false : {A : Type 0} {b : Bool} (x y : A) → b ≡ false → (if b then x else y) ≡ y
if_false x y h = rw h refl

-- A busy device is of some pod that stands under its key.
pub find_busy :
    (m : Map PodResources) (d : String)
    → IsKeyed m
    → is_busy m d ≡ true
    → (pr : PodResources) × (some_container pr.containers d ≡ true)
      × (lookup (podidx pr) m ≡ some pr)
unfolding IsKeyed lookup
find_busy [] d v h = absurd (ground arith)
find_busy ((k, pr) ∷ m) d (own, alone, v) h = elim (Bool-cases (some_container pr.containers d)) [
  | inl here ↦ (pr, here, if_true (some pr) (lookup (podidx pr) m) ((eq_iff k (podidx pr)).1 own))
  | inr there ↦
      (let (q, busy, found) =
          find_busy m d v (false_or (some_container pr.containers d) (is_busy m d) there h) in
        (
          q,
          busy,
          elim (Bool-cases (str_eq k (podidx q))) [
            | inl same ↦
                none_some q
                  (sym alone ∙ ap (λ x. lookup x m) ((eq_iff k (podidx q)).0 same) ∙ found)
            | inr other ↦ if_false (some pr) (lookup (podidx q) m) other ∙ found
          ],
        ))
]

pub busy_of :
    (m : Map PodResources) (k d : String) (pr : PodResources)
    → lookup k m ≡ some pr
    → some_container pr.containers d ≡ true
    → is_busy m d ≡ true
unfolding lookup
busy_of [] k d pr h b = none_some pr h
busy_of ((j, old) ∷ m) k d pr h b = elim (Bool-cases (str_eq j k)) [
  | inl same ↦
      (let e : old ≡ pr = some_inj (sym (if_true (some old) (lookup k m) same) ∙ h) in
        ap (λ x. some_container x.containers d || is_busy m d) e ∙ rw b refl)
  | inr other ↦
      rw (busy_of m k d pr (sym (if_false (some old) (lookup k m) other) ∙ h) b)
        (or_true (some_container old.containers d))
]

pub own_key :
    (m : Map PodResources) (k : String) (pr : PodResources)
    → IsKeyed m
    → lookup k m ≡ some pr
    → podidx pr ≡ k
unfolding IsKeyed lookup
own_key [] k pr v h = none_some pr h
own_key ((j, old) ∷ m) k pr (own, alone, v) h = elim (Bool-cases (str_eq j k)) [
  | inl same ↦
      ap podidx (sym (some_inj (sym (if_true (some old) (lookup k m) same) ∙ h)))
      ∙ sym own
      ∙ (eq_iff j k).0 same
  | inr other ↦ own_key m k pr v (sym (if_false (some old) (lookup k m) other) ∙ h)
]
