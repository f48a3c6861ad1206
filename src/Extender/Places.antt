-- ===== src/Extender/Places.antt =====
-- Places of a list: what a reservation appends and a write changes.
use nvidia_gpu_scheduler.Prelude.{
  ℕ, zero, suc, ◌<◌, ◌≡◌, ◌⊎◌, inl, inr, refl, ap, List, [], ◌∷◌, ◌++◌, some, String, length,
  get_elem?, set, take, arith,
}

abbrev pub Pending : ℕ → String → List (ℕ × String) → Type 0
Pending k n [] = ⊥
Pending k n ((j, m) ∷ rs) = ((j ≡ k) × (m ≡ n)) ⊎ Pending k n rs

abbrev pub AllHold : List String → List (ℕ × String) → Type 0
AllHold out [] = Unit {0}
AllHold out ((k, n) ∷ rs) = (get_elem? out k ≡ some n) × AllHold out rs

pub get_elem?-append :
    (out : List String) (n : String) (k : ℕ) {m : String}
    → get_elem? out k ≡ some m
    → get_elem? (out ++ n ∷ []) k ≡ some m
get_elem?-append [] n k h = cc
get_elem?-append (x ∷ out) n zero h = h
get_elem?-append (x ∷ out) n (suc k) h = get_elem?-append out n k h

pub get_elem?-append_last :
    (out : List String) (n : String) → get_elem? (out ++ n ∷ []) (length out) ≡ some n
get_elem?-append_last [] n = refl
get_elem?-append_last (x ∷ out) n = get_elem?-append_last out n

pub get_elem?-append_inv :
    (out : List String) (n : String) (k : ℕ) {m : String}
    → get_elem? (out ++ n ∷ []) k ≡ some m
    → (get_elem? out k ≡ some m) ⊎ ((length out ≡ k) × (n ≡ m))
get_elem?-append_inv [] n zero h = inr (refl, ground arith)
get_elem?-append_inv [] n (suc k) h = cc
get_elem?-append_inv (x ∷ out) n zero h = inl h
get_elem?-append_inv (x ∷ out) n (suc k) h = ground (arith, get_elem?-append_inv out n k h)

pub get_elem?-lt : (xs : List String) (k : ℕ) {m : String} → get_elem? xs k ≡ some m → k < length xs
get_elem?-lt [] k h = cc
get_elem?-lt (x ∷ xs) zero h = omega arith
get_elem?-lt (x ∷ xs) (suc k) h = omega (arith, get_elem?-lt xs k h)

pub AllHold-append :
    (out : List String) (n : String) (rs : List (ℕ × String))
    → AllHold out rs
    → AllHold (out ++ n ∷ []) rs
AllHold-append out n [] h = tt
AllHold-append out n ((k, m) ∷ rs) h = (get_elem?-append out n k h.0, AllHold-append out n rs h.1)

pub AllHold-split :
    (out : List String) (us vs : List (ℕ × String)) (k : ℕ) (n : String)
    → AllHold out (us ++ (k, n) ∷ vs)
    → (get_elem? out k ≡ some n) × AllHold out (us ++ vs)
AllHold-split out [] vs k n h = h
AllHold-split out ((j, m) ∷ us) vs k n h =
    let (a, b) = AllHold-split out us vs k n h.1 in (a, (h.0, b))

pub Pending-split :
    (us vs : List (ℕ × String)) (k : ℕ) (n : String) (j : ℕ) (m : String)
    → Pending j m (us ++ (k, n) ∷ vs)
    → ((k ≡ j) × (n ≡ m)) ⊎ Pending j m (us ++ vs)
Pending-split [] vs k n j m h = h
Pending-split ((i, x) ∷ us) vs k n j m (inl e) = inr (inl e)
Pending-split ((i, x) ∷ us) vs k n j m (inr p) = elim (Pending-split us vs k n j m p) [
  | inl e ↦ inl e
  | inr q ↦ inr (inr q)
]

-- What a write does to a place: the written one holds the node, the others keep theirs.
pub get_elem?-set :
    (xs : List String) (k : ℕ) (n : String) (j : ℕ) {m : String}
    → get_elem? xs j ≡ some m
    → ((k ≡ j) × (get_elem? (set xs k n) j ≡ some n)) ⊎ (get_elem? (set xs k n) j ≡ some m)
get_elem?-set [] k n j h = cc
get_elem?-set (x ∷ xs) zero n zero h = inl (refl, refl)
get_elem?-set (x ∷ xs) zero n (suc j) h = inr h
get_elem?-set (x ∷ xs) (suc k) n zero h = inr h
get_elem?-set (x ∷ xs) (suc k) n (suc j) h = elim (get_elem?-set xs k n j h) [
  | inl e ↦ inl (ap suc e.0, e.1)
  | inr e ↦ inr e
]

pub get_elem?-set_self :
    (xs : List String) (k : ℕ) (n : String) → k < length xs → get_elem? (set xs k n) k ≡ some n
get_elem?-set_self [] k n h = absurd (omega arith)
get_elem?-set_self (x ∷ xs) zero n h = refl
get_elem?-set_self (x ∷ xs) (suc k) n h = get_elem?-set_self xs k n (omega arith)

-- A list that holds all that another holds begins with it.
pub take_of_holds :
    (out xs : List String)
    → ((k : ℕ) (n : String) → get_elem? out k ≡ some n → get_elem? xs k ≡ some n)
    → take (length out) xs ≡ out
take_of_holds [] xs h = refl
take_of_holds (o ∷ out) [] h = cc (h 0 o refl)
take_of_holds (o ∷ out) (x ∷ xs) h = cc (h 0 o refl, take_of_holds out xs (λ k n e. h (suc k) n e))
