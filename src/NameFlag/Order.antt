-- ===== src/NameFlag/Order.antt =====
-- The order in which the sets of flags are kept.
use nvidia_gpu_scheduler.Prelude.{
  Bool, true, false, ◌||◌, ◌≡◌, refl, ap, ◌∙◌, List, [], ◌∷◌, ◌++◌, Option, none, some, String,
  str_eq, eq_iff, has_text, has_text-append, lookup, lookup-insert, arith, if◌then◌else◌,
}
use nvidia_gpu_scheduler.Sets.{Distinct}
use nvidia_gpu_scheduler.NameFlag.{NameFlagSet, add_unless, add_flag_set}

module _ (F : Type 0) where
  abbrev pub is_some : Option F → Bool
  is_some none = false
  is_some (some x) = true

  -- No name stands twice in the order, and the names of the order are those that have a set.
  unfoldable pub IsOrdered : NameFlagSet F → Type 0
  IsOrdered nfs =
      Distinct nfs.order
      × ((name : String) → has_text nfs.order name ≡ is_some (lookup name nfs.flagsets))

  rest_false : (a b : Bool) → (a || b) ≡ false → b ≡ false
  rest_false a b h = ground arith

  fresh_in : (a b : Bool) → a ≡ false → b ≡ false → (a || (b || false)) ≡ false
  fresh_in a b p q = ground arith

  not_same : (b : Bool) (x y : String) → (str_eq y x || b) ≡ false → str_eq x y ≡ false
  not_same b x y h = ground (arith, eq_iff y x, eq_iff x y)

  swap : (a b : Bool) → (b || (a || false)) ≡ (a || b)
  swap a b = ground arith

  Distinct-append :
      (xs : List String) (x : String)
      → Distinct xs
      → has_text xs x ≡ false
      → Distinct (xs ++ x ∷ [])
  Distinct-append [] x d h = (refl, tt)
  Distinct-append (y ∷ xs) x (fresh, d) h = (
    has_text-append xs (x ∷ []) y
        ∙ fresh_in (has_text xs y) (str_eq x y) fresh (not_same (has_text xs x) x y h),
    Distinct-append xs x d (rest_false (str_eq y x) (has_text xs x) h),
  )

  is_some-if :
      (b : Bool) (x : F) (o : Option F) → is_some (if b then some x else o) ≡ (b || is_some o)
  is_some-if true x o = refl
  is_some-if false x o = refl

  add_unless-IsOrdered :
      (name : String) (fs : F) (nfs : NameFlagSet F) (o : Option F)
      → lookup name nfs.flagsets ≡ o
      → IsOrdered nfs
      → IsOrdered (add_unless F name fs nfs o).0
  unfolding add_unless IsOrdered
  add_unless-IsOrdered name fs nfs (some old) e h = h
  add_unless-IsOrdered name fs nfs none e (d, h) = (
    Distinct-append nfs.order name d (h name ∙ ap is_some e),
    (λ n.
        has_text-append nfs.order (name ∷ []) n
        ∙ rw
            (
              h n,
              lookup-insert name n fs nfs.flagsets,
              is_some-if (str_eq name n) fs (lookup n nfs.flagsets),
            )
            (swap (str_eq name n) (is_some (lookup n nfs.flagsets)))),
  )

  -- A call of AddFlagSet, accepted or refused, keeps the order free of repetitions and equal, as a
  -- set of names, to the names that have a set.
  pub add_flag_set-IsOrdered :
      (name : String) (fs : F) (nfs : NameFlagSet F)
      → IsOrdered nfs
      → IsOrdered (add_flag_set F name fs nfs).0
  unfolding add_flag_set
  add_flag_set-IsOrdered name fs nfs h =
      add_unless-IsOrdered name fs nfs (lookup name nfs.flagsets) refl h
