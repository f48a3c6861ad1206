-- ===== src/Sets/Interface.antt =====
-- The sets of texts (sets.String of k8s.io/apimachinery) that the program stores device ids in, as
-- a parameter: the operations that the program calls, and what their documentation says of them.
-- Nothing is assumed of the order in which a set lists its elements.

use nvidia_gpu_scheduler.Prelude.{
  ℕ, ◌≡◌, ◌↔◌, Bool, true, false, ◌&&◌, ◌||◌, not, List, [], ◌∷◌, String, has_text, length,
}

-- No text stands twice in the list.
abbrev pub Distinct : List String → Type 0
Distinct [] = Unit
Distinct (x ∷ xs) = (has_text xs x ≡ false) × Distinct xs

pub record StringSet : Type 1 where
  pub Set : Type 0
  -- sets.NewString()
  pub new : Set
  -- s.Insert(items...)
  pub insert : Set → List String → Set
  -- s.Delete(items...)
  pub delete : Set → List String → Set
  -- s.Difference(t)
  pub difference : Set → Set → Set
  -- s.Has(item)
  pub has : Set → String → Bool
  -- s.List(), s.UnsortedList()
  pub to_list : Set → List String
  -- s.Len()
  pub size : Set → ℕ
  -- reflect.DeepEqual of two sets, which are Go maps
  pub deep_equal : Set → Set → Bool
  pub has-new : (d : String) → has new d ≡ false
  pub has-insert :
      (s : Set) (xs : List String) (d : String) → has (insert s xs) d ≡ (has_text xs d || has s d)
  pub has-delete :
      (s : Set) (xs : List String) (d : String)
      → has (delete s xs) d ≡ (not (has_text xs d) && has s d)
  pub has-difference :
      (s t : Set) (d : String) → has (difference s t) d ≡ (not (has t d) && has s d)
  pub has_text-to_list : (s : Set) (d : String) → has_text (to_list s) d ≡ has s d
  pub to_list-Distinct : (s : Set) → Distinct (to_list s)
  pub size-to_list : (s : Set) → size s ≡ length (to_list s)
  pub deep_equal_iff : (s t : Set) → (deep_equal s t ≡ true) ↔ ((d : String) → has s d ≡ has t d)
