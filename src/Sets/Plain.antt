-- ===== src/Sets/Plain.antt =====
-- A set of texts as a list with no text twice, for concrete runs.
use nvidia_gpu_scheduler.Prelude.{
  ◌≡◌, refl, sym, ◌∙◌, Bool, true, ◌&&◌, ◌||◌, not, List, [], ◌∷◌, String, str_eq, eq_iff, eq_refl,
  Bool-cases, inl, inr, has_text, length, arith, if◌then◌else◌,
}
use nvidia_gpu_scheduler.Sets.Interface.{StringSet, Distinct}

add : String → List String → List String
add x s = if has_text s x then s else x ∷ s

add_all : List String → List String → List String
add_all s [] = s
add_all s (x ∷ xs) = add x (add_all s xs)

drop_all : List String → List String → List String
drop_all [] xs = []
drop_all (y ∷ s) xs = let rest = drop_all s xs in if has_text xs y then rest else y ∷ rest

-- Every text of the first list stands in the second.
within : List String → List String → Bool
within [] t = true
within (x ∷ s) t = has_text t x && within s t

same : List String → List String → Bool
same s t = within s t && within t s

has-add :
    (x : String) (s : List String) (d : String)
    → has_text (add x s) d ≡ (str_eq x d || has_text s d)
unfolding add
has-add x s d = ground (arith, eq_iff x d)

has-add_all :
    (s xs : List String) (d : String) → has_text (add_all s xs) d ≡ (has_text xs d || has_text s d)
unfolding add_all
has-add_all s [] d = refl
has-add_all s (x ∷ xs) d = ground (arith, has-add x (add_all s xs) d, has-add_all s xs d)

has-drop_all :
    (s xs : List String) (d : String)
    → has_text (drop_all s xs) d ≡ (not (has_text xs d) && has_text s d)
unfolding drop_all
has-drop_all [] xs d = ground arith
has-drop_all (y ∷ s) xs d = ground (arith, eq_iff y d, has-drop_all s xs d)

within-sound :
    (s t : List String) (d : String) → within s t ≡ true → has_text s d ≡ true → has_text t d ≡ true
unfolding within
within-sound [] t d h k = cc
within-sound (x ∷ s) t d h k = ground (arith, eq_iff x d, within-sound s t d)

within-complete :
    (s t : List String)
    → ((d : String) → has_text s d ≡ true → has_text t d ≡ true)
    → within s t ≡ true
unfolding within
within-complete [] t h = refl
within-complete (x ∷ s) t h =
    ground (arith, h x, eq_refl x, within-complete s t (λ d k. h d (ground (arith, k))))

same-sound : (s t : List String) → same s t ≡ true → (d : String) → has_text s d ≡ has_text t d
unfolding same
same-sound s t h d = ground (arith, within-sound s t d, within-sound t s d)

same-complete : (s t : List String) → ((d : String) → has_text s d ≡ has_text t d) → same s t ≡ true
unfolding same
same-complete s t h =
    ground (arith, within-complete s t (λ d k. sym (h d) ∙ k), within-complete t s (λ d k. h d ∙ k))

add-Distinct : (x : String) (s : List String) → Distinct s → Distinct (add x s)
unfolding add
add-Distinct x s h = elim (Bool-cases (has_text s x)) [
  | inl old ↦ rw old h
  | inr new ↦ rw new (new, h)
]

add_all-Distinct : (s xs : List String) → Distinct s → Distinct (add_all s xs)
unfolding add_all
add_all-Distinct s [] h = h
add_all-Distinct s (x ∷ xs) h = add-Distinct x (add_all s xs) (add_all-Distinct s xs h)

drop_all-Distinct : (s xs : List String) → Distinct s → Distinct (drop_all s xs)
unfolding drop_all
drop_all-Distinct [] xs h = h
drop_all-Distinct (y ∷ s) xs h = elim (Bool-cases (has_text xs y)) [
  | inl gone ↦ rw gone (drop_all-Distinct s xs h.1)
  | inr kept ↦ rw kept (ground (arith, h.0, has-drop_all s xs y), drop_all-Distinct s xs h.1)
]

abbrev pub PlainSet : Type 0
PlainSet = (s : List String) × Distinct s

-- The sets of the concrete runs below.
unfoldable pub plain : StringSet
unfolding add add_all drop_all within same add_all-Distinct drop_all-Distinct has-add_all
    has-drop_all same-sound same-complete add-Distinct has-add within-sound within-complete
plain = record {
  Set = PlainSet;
  new = ([], tt);
  insert = λ s xs. (add_all s.0 xs, add_all-Distinct s.0 xs s.1);
  delete = λ s xs. (drop_all s.0 xs, drop_all-Distinct s.0 xs s.1);
  difference = λ s t. (drop_all s.0 t.0, drop_all-Distinct s.0 t.0 s.1);
  has = λ s d. has_text s.0 d;
  to_list = λ s. s.0;
  size = λ s. length s.0;
  deep_equal = λ s t. same s.0 t.0;
  has-new = λ d. refl;
  has-insert = λ s xs d. has-add_all s.0 xs d;
  has-delete = λ s xs d. has-drop_all s.0 xs d;
  has-difference = λ s t d. has-drop_all s.0 t.0 d;
  has_text-to_list = λ s d. refl;
  to_list-Distinct = λ s. s.1;
  size-to_list = λ s. refl;
  deep_equal_iff = λ s t. (same-sound s.0 t.0, same-complete s.0 t.0);
}
