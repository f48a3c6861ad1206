-- ===== src/Metadata/Suffix.antt =====
-- When the service's name is the pod's name without its suffix.
use Prim.Native.Char.{Char, code}
use Prim.Native.String.{String as Text, ◌++◌ as concat}
use nvidia_gpu_scheduler.Prelude.{
  Bool, true, false, not, ◌&&◌, ◌||◌, ◌≡◌, refl, ap, ◌∙◌, Option, none, some, String, str_eq, ◌==◌,
  arith, if◌then◌else◌,
}
use text.Mathlib.TextLemmas.{nil-append, cons-append}
use nvidia_gpu_scheduler.Metadata.{
  Metadata, prepend, cut_here, before_last_dash, with_service, with_pod_name, init_metadata,
}

unfoldable pub has_dash : String → Bool
has_dash Text.[] = false
has_dash (Text.◌∷◌ c s) = code c == 45 || has_dash s

abbrev pub is_none : {A : Type 0} → Option A → Bool
is_none none = true
is_none (some x) = false

cut_found : (b : Bool) (s : String) → cut_here b (some s) ≡ some s
unfolding cut_here
cut_found true s = refl
cut_found false s = refl

cut_none :
    (b : Bool) (c : Char) (o : Option String)
    → is_none (cut_here b (prepend c o)) ≡ (not b && is_none o)
unfolding cut_here prepend
cut_none true c none = refl
cut_none false c none = refl
cut_none true c (some s) = refl
cut_none false c (some s) = refl

not_or : (a b : Bool) → (not a && not b) ≡ not (a || b)
not_or a b = ground arith

no_cut : (s : String) → is_none (before_last_dash s) ≡ not (has_dash s)
unfolding before_last_dash has_dash
no_cut Text.[] = refl
no_cut (Text.◌∷◌ c s) =
    cut_none (code c == 45) c (before_last_dash s)
    ∙ ap (λ b. not (code c == 45) && b) (no_cut s)
    ∙ not_or (code c == 45) (has_dash s)

none_of : (o : Option String) → is_none o ≡ true → o ≡ none
none_of none h = refl
none_of (some s) h = ground arith

true_of : (b : Bool) → b ≡ false → not b ≡ true
true_of b h = ground arith

abbrev dash : Char
dash = "-"

cut_suffix :
    (base suffix : String)
    → has_dash suffix ≡ false
    → before_last_dash (concat base (concat "-" suffix)) ≡ some base
unfolding before_last_dash cut_here prepend
cut_suffix Text.[] suffix h =
    ap before_last_dash (
      nil-append (concat "-" suffix)
      ∙ cons-append dash "" suffix
      ∙ ap (λ t. Text.◌∷◌ dash t) (nil-append suffix))
    ∙ ap (λ o. cut_here true (prepend dash o))
        (none_of (before_last_dash suffix) (no_cut suffix ∙ true_of (has_dash suffix) h))
cut_suffix (Text.◌∷◌ c base) suffix h =
    ap before_last_dash (cons-append c base (concat "-" suffix))
    ∙ ap (λ o. cut_here (code c == 45) (prepend c o)) (cut_suffix base suffix h)
    ∙ cut_found (code c == 45) (Text.◌∷◌ c base)

-- A pod name that ends with a dash and a suffix without dashes, as Kubernetes gives it, in a
-- namespace that is not empty, names the service by what stands before that dash.
pub init_metadata-suffix :
    (base suffix namespace : String)
    → has_dash suffix ≡ false
    → str_eq (concat base (concat "-" suffix)) "" ≡ false
    → str_eq namespace "" ≡ false
    → init_metadata (concat base (concat "-" suffix)) namespace ≡ some (with_service base namespace)
unfolding init_metadata with_pod_name
init_metadata-suffix base suffix namespace h e n = rw (e, n, cut_suffix base suffix h) refl

named_none :
    (namespace : String) (o : Option String) → is_none (with_pod_name namespace o) ≡ is_none o
unfolding with_pod_name
named_none namespace none = refl
named_none namespace (some name) = refl

init_if :
    (b : Bool) (m : Metadata) (o : Option Metadata)
    → is_none (if b then some m else o) ≡ (not b && is_none o)
init_if true m o = refl
init_if false m o = refl

-- The program panics at its start exactly when both variables are set and the name has no dash.
pub init_metadata-panics :
    (name namespace : String)
    → is_none (init_metadata name namespace)
      ≡ (not (str_eq name "" || str_eq namespace "") && not (has_dash name))
unfolding init_metadata
init_metadata-panics name namespace =
    init_if (str_eq name "" || str_eq namespace "") _
      (with_pod_name namespace (before_last_dash name))
    ∙ ap (λ b. not (str_eq name "" || str_eq namespace "") && b)
        (named_none namespace (before_last_dash name) ∙ no_cut name)
