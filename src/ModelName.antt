-- ===== src/ModelName.antt =====
-- pkg/util/stringfmt.go: the names by which gpu models and GpuPod objects are found.
-- The letters and blanks of ASCII are modelled, and U+0085 and U+00A0, which unicode.IsSpace counts
-- among the Latin-1 blanks; other characters are left as they are.
pub mod Laws
use Prim.Native.Char.{Char, char, code, IsScalar}
use Prim.Native.String.{◌++◌}
use nvidia_gpu_scheduler.Prelude.{
  ℕ, ◌+◌, ◌<◌, ◌≡◌, Bool, true, false, ◌&&◌, ◌||◌, String, inl, inr, Bool-cases, leb, arith,
  if◌then◌else◌,
}
use nvidia_gpu_scheduler.Prelude.{◌==◌}
use Prim.Native.Nat.{compare, Ordering}

is_space_code : ℕ → Bool
is_space_code n = (leb 9 n && leb n 13) || n == 32 || n == 133 || n == 160

unfoldable pub is_space : Char → Bool
unfolding is_space_code
is_space c = is_space_code (code c)

pub is_upper_code : ℕ → Bool
is_upper_code n = leb 65 n && leb n 90

below_surrogates : (n : ℕ) → n < 55296 → compare n 55296 ≡ Ordering.lt
below_surrogates n h = ground arith

pub small-IsScalar : (n : ℕ) → n < 55296 → IsScalar n
small-IsScalar n h = rw (below_surrogates n h) tt

pub upper-lt : (n : ℕ) → is_upper_code n ≡ true → n + 32 < 55296
unfolding is_upper_code
upper-lt n h = ground arith

-- unicode.ToLower
to_lower_char : Char → Char
unfolding Bool-cases
to_lower_char (char n p) = elim (Bool-cases (is_upper_code n)) [
  | inl h ↦ char (n + 32) (small-IsScalar (n + 32) (upper-lt n h))
  | inr h ↦ char n p
]

-- strings.ToLower
to_lower : String → String
to_lower String.[] = String.[]
to_lower (String.◌∷◌ c s) = String.◌∷◌ (to_lower_char c) (to_lower s)

trim_left : String → String
trim_left String.[] = String.[]
trim_left (String.◌∷◌ c s) = let rest = trim_left s in if is_space c then rest else String.◌∷◌ c s

-- Puts a character before a text whose end is trimmed.
before_trimmed : Char → String → String
before_trimmed c String.[] = if is_space c then String.[] else String.◌∷◌ c String.[]
before_trimmed c (String.◌∷◌ d s) = String.◌∷◌ c (String.◌∷◌ d s)

trim_right : String → String
trim_right String.[] = String.[]
trim_right (String.◌∷◌ c s) = before_trimmed c (trim_right s)

-- strings.TrimSpace
trim_space : String → String
trim_space s = trim_right (trim_left s)

unfoldable pub normalize_model_name : String → String
unfolding is_space is_upper_code to_lower_char to_lower trim_left before_trimmed trim_right
    trim_space
normalize_model_name model = to_lower (trim_space model)

unfoldable pub metadata_to_name : String → String → String
metadata_to_name ns name = ns ++ ("-" ++ name)
