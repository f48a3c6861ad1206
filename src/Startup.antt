-- ===== src/Startup.antt =====
-- How the two programs start: cmd/gpuserver/app/server.go, cmd/gpuserver-ds/app/server.go and what
-- they call of their own code. Every call of a library is a parameter: the error that it answers
-- with, `none` for nil.
pub mod Clients
pub mod Certs
pub mod Manager
pub mod Server
pub mod Agent
use nvidia_gpu_scheduler.Prelude.{ℕ, List, [], ◌∷◌, Option, none, some, String}

-- What a call with a value answers: the value, or an error.
pub data Tried (A : Type 0) : Type 0 where
  got : A → Tried A
  error : String → Tried A

-- How a program ends: runserver returns an error or nil, the process exits, or it panics.
pub data Ended : Type 0 where
  returned : Option String → Ended
  exited : ℕ → Ended
  panicked : Ended

-- What a program has done, and how it ends.
pub record Outcome (A : Type 0) : Type 0 where
  pub acts : List A
  pub ended : Ended

module _ {A : Type 0} where
  abbrev pub end_with : Ended → Outcome A
  end_with e = record { acts = []; ended = e }

  abbrev pub act : A → Outcome A → Outcome A
  act a o = record o { acts = a ∷ o.acts }

  -- if err != nil { return err }
  abbrev pub check : Option String → Outcome A → Outcome A
  check none rest = rest
  check (some e) rest = end_with (returned (some e))

  abbrev pub check_value : {B : Type 0} → Tried B → (B → Outcome A) → Outcome A
  check_value (got b) rest = rest b
  check_value (error e) rest = end_with (returned (some e))

  -- if err != nil { os.Exit(code) }
  abbrev pub check_exit : ℕ → Option String → Outcome A → Outcome A
  check_exit code none rest = rest
  check_exit code (some e) rest = end_with (exited code)
