-- ===== src/Vel/Log.antt =====
-- pkg/vel/log/log.go: the writer that remembers the status it sent, and the middleware that logs
-- each request and turns a panic into a response. Of the log itself only the status and the level
-- of the last record are modelled; the logger that the context carries is not.
pub mod Recovery
use treenq.Base.{
  ℕ, List, [], ◌∷◌, ◌++◌, Text, bytes, Bool, true, false, leb, Option, none, some, if◌then◌else◌,
}
use treenq.Vel.Http.{
  Action, set_header, set_cookie, write_header, write, End, finished, panicking, Request, Serve,
  Reply,
}

-- `responseWriter`, less the writer that it wraps: that one gets the actions which are returned.
pub record ResponseWriter : Type 0 where
  pub status : ℕ
  pub wrote_header : Bool

abbrev pub new_writer : ResponseWriter
new_writer = record { status = 0; wrote_header = false }

-- `WriteHeader` and `Write`; other calls go to the embedded writer.
unfoldable pub forward_header : ResponseWriter → ℕ → ResponseWriter × List Action
forward_header w code = (
  if w.wrote_header then w else record { status = code; wrote_header = true },
  write_header code ∷ [],
)

unfoldable pub forward_write : ResponseWriter → Text → ResponseWriter × List Action
unfolding forward_header
forward_write w chunk =
    if w.wrote_header
    then (w, write chunk ∷ [])
    else let (w', sent) = forward_header (record w { status = 200 }) 200 in
      (w', sent ++ write chunk ∷ [])

unfoldable pub forward : ResponseWriter → Action → ResponseWriter × List Action
unfolding forward_header forward_write
forward w (set_header k v) = (w, set_header k v ∷ [])
forward w (set_cookie k v expires) = (w, set_cookie k v expires ∷ [])
forward w (write_header code) = forward_header w code
forward w (write chunk) = forward_write w chunk

unfoldable pub forward_all : ResponseWriter → List Action → ResponseWriter × List Action
unfolding forward
forward_all w [] = (w, [])
forward_all w (a ∷ actions) =
    let (w', sent) = forward w a in let (w'', rest) = forward_all w' actions in (w'', sent ++ rest)

pub data Level : Type 0 where
  debug info error : Level

unfoldable pub level_of : ℕ → Level
level_of status = if leb 500 status then error else if leb 400 status then info else debug

-- The record "request completed" holds the writer's status; after a panic there is none.
pub record Observed (S : Type 0) : Type 0 where
  pub reply : Reply S
  pub completed : Option ℕ

-- What the deferred function writes when it recovers from a panic.
abbrev pub recovery : List Action
recovery = write_header 500 ∷ write (bytes "internal server error") ∷ []

abbrev pub observe_reply : {S : Type 0} → Reply S → Observed S
observe_reply (finished, actions, s) =
    let (w, sent) = forward_all new_writer actions in
    record { reply = (finished, sent, s); completed = some w.status }
observe_reply (panicking m, actions, s) =
    let (w, sent) = forward_all new_writer (actions ++ recovery) in
    record { reply = (finished, sent, s); completed = none }

unfoldable pub observe : {S : Type 0} → Serve S → Request → S → Observed S
unfolding forward_all
observe next r s = observe_reply (next r s)

unfoldable pub logging_middleware : {S : Type 0} → Serve S → Serve S
unfolding observe
logging_middleware next r s = (observe next r s).reply
