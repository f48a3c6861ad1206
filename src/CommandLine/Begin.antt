-- ===== src/CommandLine/Begin.antt =====
-- When a program's init comes through, and with which flags.
use nvidia_gpu_scheduler.Prelude.{
  ◌≡◌, refl, sym, ap, ◌∙◌, inl, inr, Bool, Bool-cases, true, false, not, ◌||◌, [], ◌∷◌, ◌++◌,
  Option, none, some, String, str_eq, eq_iff, lookup, insert, arith, if◌then◌else◌, ℕ,
}
use nvidia_gpu_scheduler.NameFlag.{
  NameFlagSet, new_name_flag_set, add_flag_set, add_name_flag_set_to_cmd, Terminal, Winsize, width,
  no_size, set_usage_and_help_func,
}
use nvidia_gpu_scheduler.CommandLine.{
  Flag, FlagSet, has_flag, add_flags, Checked, passed, exit_one, check_err, and_checked, Program,
  set_server_flags, set_klog_flags, usage_of, init_command,
}

has_flag-append :
    (name : String) (f : Flag) (fs : FlagSet)
    → has_flag name (fs ++ f ∷ []) ≡ (has_flag name fs || str_eq f.name name)
has_flag-append name f [] = ground arith
has_flag-append name f (g ∷ fs) = ground (arith, has_flag-append name f fs)

there : (a b : Bool) → (b ≡ true → a ≡ true) → a ≡ (a || b)
there true b f = ground arith
there false true f = f refl
there false false f = refl

has_flag-add_one :
    (name : String) (f : Flag) (to : FlagSet)
    → has_flag name (if has_flag f.name to then to else to ++ f ∷ [])
      ≡ (has_flag name to || str_eq f.name name)
has_flag-add_one name f to = elim (Bool-cases (has_flag f.name to)) [
  | inl e ↦ rw e (
      there (has_flag name to) (str_eq f.name name)
        (λ h. ap (λ x. has_flag x to) (sym ((eq_iff f.name name).0 h)) ∙ e))
  | inr e ↦ rw e (has_flag-append name f to)
]

or_swap : (a b c : Bool) → ((a || b) || c) ≡ (a || (if b then true else c))
or_swap a b c = ground arith

has_flag-add_flags :
    (name : String) (fs to : FlagSet)
    → has_flag name (add_flags fs to) ≡ (has_flag name to || has_flag name fs)
unfolding add_flags
has_flag-add_flags name [] to = ground arith
has_flag-add_flags name (f ∷ fs) to =
    has_flag-add_flags name fs (if has_flag f.name to then to else to ++ f ∷ [])
    ∙ ap (λ b. b || has_flag name fs) (has_flag-add_one name f to)
    ∙ or_swap (has_flag name to) (str_eq f.name name) (has_flag name fs)

-- The command has exactly the flags of the program and of klog.
unfoldable pub HasFlags : Program → FlagSet → FlagSet → Type 0
HasFlags p klogflags fs =
    (name : String) → has_flag name fs ≡ (has_flag name p.flags || has_flag name klogflags)

-- How init ends.
pub data Begun (p : Program) (klogflags : FlagSet) (t : Terminal) (bind : Option String)
    (r : Checked FlagSet) : Type 0 where
  no_terminal :
      t.is_terminal ≡ false
      → r ≡ exit_one "given writer is no terminal"
      → Begun p klogflags t bind r
  no_width : (e : String) → t.get_winsize ≡ no_size e → r ≡ exit_one e → Begun p klogflags t bind r
  not_bound : (e : String) → bind ≡ some e → r ≡ exit_one e → Begun p klogflags t bind r
  begun :
      (cols : ℕ) (fs : FlagSet)
      → t.is_terminal ≡ true
      → t.get_winsize ≡ width cols
      → bind ≡ none
      → HasFlags p klogflags fs
      → r ≡ passed fs
      → Begun p klogflags t bind r

abbrev both_sets : Program → FlagSet → NameFlagSet FlagSet
both_sets p klogflags = record {
  order = p.set_name ∷ "klog" ∷ [];
  flagsets = (p.set_name, p.flags) ∷ ("klog", klogflags) ∷ [];
}

both_sets-HasFlags :
    (p : Program) (klogflags : FlagSet)
    → HasFlags p klogflags
        (add_name_flag_set_to_cmd FlagSet add_flags (both_sets p klogflags).flagsets [])
unfolding HasFlags add_name_flag_set_to_cmd
both_sets-HasFlags p klogflags name =
    has_flag-add_flags name klogflags (add_flags p.flags [])
    ∙ ap (λ b. b || has_flag name klogflags) (has_flag-add_flags name p.flags [])

-- The two sets are added, in this order.
server_added :
    (p : Program)
    → set_server_flags p (new_name_flag_set FlagSet)
      ≡ passed (record { order = p.set_name ∷ []; flagsets = (p.set_name, p.flags) ∷ [] })
unfolding set_server_flags add_flag_set lookup insert
server_added p = refl

klog_added :
    (p : Program) (klogflags : FlagSet)
    → str_eq p.set_name "klog" ≡ false
    → set_klog_flags klogflags
        (record { order = p.set_name ∷ []; flagsets = (p.set_name, p.flags) ∷ [] })
      ≡ passed (both_sets p klogflags)
unfolding set_klog_flags add_flag_set lookup insert
klog_added p klogflags h = rw (h, h) refl

-- What is left of init after the sets have been added.
bind_flags : Option String → NameFlagSet FlagSet → Checked FlagSet
unfolding add_name_flag_set_to_cmd add_flags
bind_flags bind nfs = check_err bind (add_name_flag_set_to_cmd FlagSet add_flags nfs.flagsets [])

init_after :
    (p : Program) (klogflags : FlagSet) (t : Terminal) (bind : Option String)
    → str_eq p.set_name "klog" ≡ false
    → init_command p klogflags t bind
      ≡ and_checked (usage_of (set_usage_and_help_func t) (both_sets p klogflags)) (bind_flags bind)
unfolding init_command bind_flags
init_after p klogflags t bind h =
    ap
      (λ (c : Checked (NameFlagSet FlagSet)). and_checked c (λ nfs.
        and_checked (set_klog_flags klogflags nfs)
          (λ nfs'. and_checked (usage_of (set_usage_and_help_func t) nfs') (bind_flags bind))))
      (server_added p)
    ∙ ap
        (λ (c : Checked (NameFlagSet FlagSet)).
          and_checked c
            (λ nfs'. and_checked (usage_of (set_usage_and_help_func t) nfs') (bind_flags bind)))
        (klog_added p klogflags h)

module _ (p : Program) (klogflags : FlagSet) (t : Terminal) where
  bound :
      (cols : ℕ) (bind : Option String)
      → t.is_terminal ≡ true
      → t.get_winsize ≡ width cols
      → Begun p klogflags t bind (bind_flags bind (both_sets p klogflags))
  unfolding bind_flags
  bound cols none h k = begun cols _ h k refl (both_sets-HasFlags p klogflags) refl
  bound cols (some e) h k = not_bound e refl refl

  sized :
      (bind : Option String) (w : Winsize)
      → t.is_terminal ≡ true
      → t.get_winsize ≡ w
      → Begun p klogflags t bind
          (and_checked (usage_of w (both_sets p klogflags)) (bind_flags bind))
  unfolding usage_of
  sized bind (width cols) h k = bound cols bind h k
  sized bind (no_size e) h k = no_width e k refl

  Begun-if :
      (bind : Option String) (b : Bool)
      → t.is_terminal ≡ b
      → Begun p klogflags t bind (
          and_checked
            (usage_of
              (if not b then no_size "given writer is no terminal" else t.get_winsize)
              (both_sets p klogflags))
            (bind_flags bind))
  unfolding usage_of
  Begun-if bind true h = sized bind t.get_winsize h refl
  Begun-if bind false h = no_terminal h refl

  -- For a program whose set of flags is not named as that of klog, init comes through exactly if the
  -- standard output is a terminal with a size and viper binds the flags, and then the command has
  -- exactly the flags of the program and of klog; else the process ends with 1, so that neither
  -- program starts where its output is no terminal.
  pub init_command_lem :
      (bind : Option String)
      → str_eq p.set_name "klog" ≡ false
      → Begun p klogflags t bind (init_command p klogflags t bind)
  unfolding set_usage_and_help_func
  init_command_lem bind h = rw (init_after p klogflags t bind h) (Begun-if bind t.is_terminal refl)
