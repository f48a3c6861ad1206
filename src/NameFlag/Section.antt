-- ===== src/NameFlag/Section.antt =====
-- The text of one section, the body of the loop of printSections of pkg/nameflag/nameflag.go. A text
-- is the list of its bytes; what pflag wraps to the width is an argument. To learn how wide the usages
-- are to be, a flag of z's alone is added, and the text is cut before its line.
use nvidia_gpu_scheduler.Prelude.{
  ℕ, ◌+◌, ◌-◌, ◌≡◌, refl, ap, Bool, true, false, ◌&&◌, List, [], ◌∷◌, ◌++◌, Option, none, some,
  length, take, replicate, ltb, ◌==◌, if◌then◌else◌,
}

abbrev pub newline : ℕ
newline = 10

abbrev pub letter_z : ℕ
letter_z = 122

abbrev pub zzz : ℕ → List ℕ
zzz cols = replicate (cols - 24) letter_z

starts_with : List ℕ → List ℕ → Bool
starts_with [] text = true
starts_with (c ∷ cs) [] = false
starts_with (c ∷ cs) (d ∷ text) = (c == d) && starts_with cs text

abbrev next_index : Option ℕ → Option ℕ
next_index none = none
next_index (some i) = some (i + 1)

-- strings.Index, with none for -1
unfoldable pub index_of : List ℕ → List ℕ → Option ℕ
unfolding starts_with
index_of sub [] = if starts_with sub [] then some 0 else none
index_of sub (c ∷ text) =
    let rest = index_of sub text in if starts_with sub (c ∷ text) then some 0 else next_index rest

abbrev keep_line : ℕ → Option (List ℕ) → Option (List ℕ)
keep_line c none = if c == newline then some [] else none
keep_line c (some text) = some (c ∷ text)

-- What stands before the last newline, if there is one.
unfoldable pub before_newline : List ℕ → Option (List ℕ)
before_newline [] = none
before_newline (c ∷ text) = keep_line c (before_newline text)

abbrev joined : Option (List ℕ) → List ℕ
joined none = []
joined (some text) = text

-- strings.Join(lines[:len(lines)-1], "\n") of the lines of the text up to the index, with a newline;
-- the slice panics without an index.
abbrev cut_at : List ℕ → Option ℕ → Option (List ℕ)
cut_at text none = none
cut_at text (some i) = some (joined (before_newline (take i text)) ++ newline ∷ [])

-- What is written for a section, from its heading and usages, which are given whether the flag of z's
-- is among them; none for a panic.
unfoldable pub print_section : ℕ → (Bool → List ℕ) → Option (List ℕ)
unfolding index_of before_newline
print_section cols usages =
    if ltb 24 cols
    then cut_at (usages true) (index_of (zzz cols) (usages true))
    else some (usages false)

-- The bytes of a line.
pub OneLine : List ℕ → Type 0
OneLine [] = Unit
OneLine (c ∷ text) = ((c == newline) ≡ false) × OneLine text

take_append : (xs ys : List ℕ) → take (length xs) (xs ++ ys) ≡ xs
take_append [] ys = refl
take_append (x ∷ xs) ys = ap (λ t. x ∷ t) (take_append xs ys)

before_newline-OneLine : (line : List ℕ) → OneLine line → before_newline line ≡ none
unfolding before_newline OneLine
before_newline-OneLine [] h = refl
before_newline-OneLine (c ∷ line) (here, later) = rw (before_newline-OneLine line later, here) refl

before_newline-append :
    (before line : List ℕ) → OneLine line → before_newline (before ++ newline ∷ line) ≡ some before
unfolding before_newline
before_newline-append [] line h = rw (before_newline-OneLine line h) refl
before_newline-append (c ∷ before) line h = rw (before_newline-append before line h) refl

-- On a terminal that is wider than 24, a section is written up to the line in which the first run of
-- so many z's stands, whether that is in the flag that was added or in one of the section's own.
pub print_section_lem :
    (cols : ℕ) (usages : Bool → List ℕ) (before line rest : List ℕ)
    → ltb 24 cols ≡ true
    → usages true ≡ (before ++ newline ∷ line) ++ rest
    → OneLine line
    → index_of (zzz cols) (usages true) ≡ some (length (before ++ newline ∷ line))
    → print_section cols usages ≡ some (before ++ newline ∷ [])
unfolding print_section
print_section_lem cols usages before line rest wide text h first =
    rw
      (
        wide,
        first,
        text,
        take_append (before ++ newline ∷ line) rest,
        before_newline-append before line h,
      )
      refl
