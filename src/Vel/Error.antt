-- ===== src/Vel/Error.antt =====
-- pkg/vel/router.go: the error that a call returns, and its text.
use treenq.Base.{List, [], ◌++◌, Text, bytes, text_eq, if◌then◌else◌}

pub record VelError : Type 0 where
  pub code : Text
  pub message : Text
  pub meta : List (Text × Text)

unfoldable pub error_text : VelError → Text
error_text e = if text_eq e.message [] then e.code else e.code ++ bytes ": " ++ e.message

-- The error that the domain's handlers make of a plain one.
abbrev pub unknown : Text → VelError
unknown message = record { code = bytes "UNKNOWN"; message = message; meta = [] }

-- How a call of an RPC handler ends: with its response, with an error, or in a panic.
pub data Outcome {ℓ} (A : Type ℓ) : Type ℓ where
  done : A → Outcome A
  failed : VelError → Outcome A
  panicked : Text → Outcome A
