-- ===== src/Vel/Rpc.antt =====
-- pkg/vel/router.go, `NewHandler`: an RPC handler as an HTTP handler. The JSON of a type is a
-- codec; the type parameters' sizes say whether there is a body to read and one to write.
pub mod Answers
use treenq.Base.{ℕ, List, [], ◌∷◌, Text, bytes, Bool, text_eq, ◌||◌, Result, ok, err, if◌then◌else◌}
use treenq.Vel.Error.{VelError, Outcome, done, failed, panicked}
use treenq.Vel.Http.{Request, Action, write_header, write, End, finished, panicking, Serve}

-- encoding/json at one type: `Encode` makes a line of text or fails, `Decode` reads the body.
pub record Codec (A : Type 0) : Type 0 where
  pub encode : A → Result Text
  pub decode : Result Text → Result A

-- What `NewHandler` knows of the types `I` and `O`.
pub record Signature (I O : Type 0) : Type 0 where
  pub has_req_body : Bool
  pub has_res_body : Bool
  pub zero_value : I
  pub input : Codec I
  pub output : Codec O
  pub error : Codec VelError

-- An encoding error is logged, and nothing is written.
abbrev pub write_json : Result Text → List Action
write_json (ok text) = write text ∷ []
write_json (err _) = []

unfoldable pub error_status : VelError → ℕ
error_status e = if text_eq e.code (bytes "UNKNOWN") || text_eq e.code [] then 500 else 400

abbrev pub failed_decoding : Text → VelError
failed_decoding message = record { code = bytes "FAILED_DECODING"; message = message; meta = [] }

abbrev pub failed_encoding : Text → VelError
failed_encoding message = record { code = bytes "FAILED_ENCODING"; message = message; meta = [] }

module _ {I O S : Type 0} (sig : Signature I O) (call : Request → I → S → Outcome O × S) where
  abbrev write_result : Result Text → List Action
  write_result (ok text) = write text ∷ []
  write_result (err e) = write_header 400 ∷ write_json (sig.error.encode (failed_encoding e))

  abbrev pub answer : Outcome O × S → End × List Action × S
  answer (done res, s) =
      (finished, (if sig.has_res_body then write_result (sig.output.encode res) else []), s)
  answer (failed e, s) =
      (finished, write_header (error_status e) ∷ write_json (sig.error.encode e), s)
  answer (panicked m, s) = (panicking m, [], s)

  abbrev pub with_input : Request → S → Result I → End × List Action × S
  with_input r s (ok i) = answer (call r i s)
  with_input r s (err e) =
      (finished, write_header 400 ∷ write_json (sig.error.encode (failed_decoding e)), s)

  unfoldable pub new_handler : Serve S
  unfolding error_status
  new_handler r s =
      with_input r s (if sig.has_req_body then sig.input.decode r.body else ok sig.zero_value)
