-- ===== src/ModelName/Laws.antt =====
-- Laws of normalize_model_name, which `Score` applies twice.
use Prim.Native.Char.{Char, char, code}
use text.Mathlib.TextEquality.{Char-path}
use nvidia_gpu_scheduler.Prelude.{
  ◌+◌, ◌≡◌, refl, ap, false, String, arith, inl, inr, Bool-cases, if◌then◌else◌,
}
use nvidia_gpu_scheduler.ModelName.{
  is_space, is_upper_code, to_lower_char, to_lower, trim_left, before_trimmed, trim_right,
  trim_space, normalize_model_name,
}

-- The code of a lowered character.
code-lower :
    (c : Char) → code (to_lower_char c) ≡ (if is_upper_code (code c) then code c + 32 else code c)
unfolding to_lower_char
code-lower (char n p) = ground arith

is_space-lower : (c : Char) → is_space (to_lower_char c) ≡ is_space c
unfolding is_space is_upper_code
is_space-lower c = ground (arith, code-lower c)

to_lower_char_idem : (c : Char) → to_lower_char (to_lower_char c) ≡ to_lower_char c
unfolding is_upper_code
to_lower_char_idem c = Char-path _ _ (ground (arith, code-lower c, code-lower (to_lower_char c)))

to_lower_idem : (s : String) → to_lower (to_lower s) ≡ to_lower s
unfolding to_lower
to_lower_idem String.[] = refl
to_lower_idem (String.◌∷◌ c s) = cc (to_lower_char_idem c, to_lower_idem s)

trim_left-to_lower : (s : String) → trim_left (to_lower s) ≡ to_lower (trim_left s)
unfolding to_lower trim_left
trim_left-to_lower String.[] = refl
trim_left-to_lower (String.◌∷◌ c s) = ground (arith, is_space-lower c, trim_left-to_lower s)

before_trimmed-lower :
    (c : Char) (s : String)
    → before_trimmed (to_lower_char c) (to_lower s) ≡ to_lower (before_trimmed c s)
unfolding to_lower before_trimmed
before_trimmed-lower c String.[] = elim (Bool-cases (is_space c)) [
  | inl blank ↦ rw (is_space-lower c, blank)
  | inr mark ↦ rw (is_space-lower c, mark)
]
before_trimmed-lower c (String.◌∷◌ d s) = refl

trim_right-to_lower : (s : String) → trim_right (to_lower s) ≡ to_lower (trim_right s)
unfolding to_lower trim_right
trim_right-to_lower String.[] = refl
trim_right-to_lower (String.◌∷◌ c s) =
    rw (trim_right-to_lower s) (before_trimmed-lower c (trim_right s))

before_trimmed_idem :
    (c : Char) (s : String)
    → trim_right s ≡ s
    → trim_right (before_trimmed c s) ≡ before_trimmed c s
unfolding trim_right before_trimmed
before_trimmed_idem c String.[] h = elim (Bool-cases (is_space c)) [
  | inl blank ↦ rw blank
  | inr mark ↦ rw mark (rw mark)
]
before_trimmed_idem c (String.◌∷◌ d s) h = ap (before_trimmed c) h

trim_right_idem : (s : String) → trim_right (trim_right s) ≡ trim_right s
unfolding trim_right
trim_right_idem String.[] = refl
trim_right_idem (String.◌∷◌ c s) = before_trimmed_idem c (trim_right s) (trim_right_idem s)

trim_left-cons :
    (c : Char) (s : String) → is_space c ≡ false → trim_left (String.◌∷◌ c s) ≡ String.◌∷◌ c s
unfolding trim_left
trim_left-cons c s h = rw h

-- What begins with a character that is not blank still does so when its end is trimmed.
trim_left-before_trimmed :
    (c : Char) (s : String)
    → is_space c ≡ false
    → trim_left (before_trimmed c s) ≡ before_trimmed c s
unfolding before_trimmed
trim_left-before_trimmed c String.[] h = rw h (trim_left-cons c String.[] h)
trim_left-before_trimmed c (String.◌∷◌ d s) h = trim_left-cons c (String.◌∷◌ d s) h

trim_left-trim_space :
    (s : String) → trim_left (trim_right (trim_left s)) ≡ trim_right (trim_left s)
unfolding trim_left trim_right
trim_left-trim_space String.[] = refl
trim_left-trim_space (String.◌∷◌ c s) = elim (Bool-cases (is_space c)) [
  | inl blank ↦ rw blank (trim_left-trim_space s)
  | inr mark ↦ rw mark (trim_left-before_trimmed c (trim_right s) mark)
]

trim_space_idem : (s : String) → trim_space (trim_space s) ≡ trim_space s
unfolding trim_space
trim_space_idem s = rw (trim_left-trim_space s) (trim_right_idem (trim_left s))

trim_space-to_lower : (s : String) → trim_space (to_lower s) ≡ to_lower (trim_space s)
unfolding trim_space
trim_space-to_lower s = rw (trim_left-to_lower s) (trim_right-to_lower (trim_left s))

-- Normalising a model name twice gives what normalising it once gives.
pub normalize_model_name_idem :
    (model : String)
    → normalize_model_name (normalize_model_name model) ≡ normalize_model_name model
unfolding normalize_model_name
normalize_model_name_idem model = rw (
  trim_space-to_lower (trim_space model),
  trim_space_idem model,
  to_lower_idem (trim_space model),
)
