-- ===== src/NameFlag.antt =====
-- The named sets of flags: pkg/nameflag/nameflag.go. A set of flags is of a library, and is not nil;
-- so are a command's flags, and what the terminal answers.
pub mod Order
pub mod Section
use Prim.Native.String.{◌++◌ as concat}
use nvidia_gpu_scheduler.Prelude.{
  ℕ, Bool, true, false, not, List, [], ◌∷◌, ◌++◌, Option, none, some, String, Map, lookup, insert,
  if◌then◌else◌,
}

module _ (F : Type 0) where
  pub record NameFlagSet : Type 0 where
    pub order : List String
    pub flagsets : Map F

  abbrev pub new_name_flag_set : NameFlagSet
  new_name_flag_set = record { order = []; flagsets = [] }

  -- The set after the call, and its error.
  pub add_unless : String → F → NameFlagSet → Option F → NameFlagSet × Option String
  unfolding insert
  add_unless name fs nfs (some old) = (nfs, some (concat "fs: " (concat name " already exist")))
  add_unless name fs nfs none =
      (record { order = nfs.order ++ name ∷ []; flagsets = insert name fs nfs.flagsets }, none)

  unfoldable pub add_flag_set : String → F → NameFlagSet → NameFlagSet × Option String
  unfolding add_unless lookup
  add_flag_set name fs nfs = add_unless name fs nfs (lookup name nfs.flagsets)

  pub section_of : (F → Bool) → String → Option F → List (String × F)
  section_of has_flags name none = []
  section_of has_flags name (some fs) = if not (has_flags fs) then [] else (name, fs) ∷ []

  pub sections_in : (F → Bool) → Map F → List String → List (String × F)
  unfolding section_of lookup
  sections_in has_flags flagsets [] = []
  sections_in has_flags flagsets (name ∷ order) =
      section_of has_flags name (lookup name flagsets) ++ sections_in has_flags flagsets order

  -- The sections that are printed.
  unfoldable pub print_sections : (F → Bool) → NameFlagSet → List (String × F)
  unfolding sections_in
  print_sections has_flags nfs = sections_in has_flags nfs.flagsets nfs.order

  -- The command's flags after the sets have been added, in the order of one run over the map.
  unfoldable pub add_name_flag_set_to_cmd : {C : Type 0} → (F → C → C) → Map F → C → C
  add_name_flag_set_to_cmd add [] cmd = cmd
  add_name_flag_set_to_cmd add ((name, fs) ∷ flagsets) cmd =
      add_name_flag_set_to_cmd add flagsets (add fs cmd)

pub data Winsize : Type 0 where
  width : ℕ → Winsize
  no_size : String → Winsize

-- What term.GetFdInfo and term.GetWinsize answer for the command's output: whether it is a terminal,
-- and its width or an error.
pub record Terminal : Type 0 where
  pub is_terminal : Bool
  pub get_winsize : Winsize

-- The width for which the usage and help functions are set, or an error.
unfoldable pub set_usage_and_help_func : Terminal → Winsize
set_usage_and_help_func t =
    if not t.is_terminal then no_size "given writer is no terminal" else t.get_winsize
