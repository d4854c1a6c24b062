-- ===== src/Vel/Http.antt =====
-- The part of net/http that the program stands on. A handler is seen through the calls that it
-- makes of its `ResponseWriter`, in their order; writes to the connection do not fail here.
use treenq.Base.{ℕ, List, [], ◌∷◌, ◌++◌, Text, bytes, Option, none, some, Result, lookup}

-- A value in a token's claims, which Go holds as `interface{}`.
pub data Claim : Type 0 where
  text : Text → Claim
  number : ℕ → Claim
  other : Claim

-- What a token claims of its bearer.
abbrev pub Claims : Type 0
Claims = List (Text × Claim)

-- A request with the values that the middlewares put into its context. Reading the body can fail.
pub record Request : Type 0 where
  pub method : Text
  pub uri : Text
  pub query : List (Text × Text)
  pub cookies : List (Text × Text)
  pub headers : List (Text × Text)
  pub body : Result Text
  pub claims : Option Claims

-- `r.Header.Get(key)`: the empty text where the header is missing.
abbrev pub or_empty : Option Text → Text
or_empty none = []
or_empty (some v) = v

-- `r.URL.Query().Get(key)`.
unfoldable pub get_query : Request → Text → Text
get_query r key = or_empty (lookup key r.query)

unfoldable pub get_header : Request → Text → Text
get_header r key = or_empty (lookup key r.headers)

pub data Action : Type 0 where
  set_header : Text → Text → Action
  set_cookie : Text → Text → ℕ → Action
  write_header : ℕ → Action
  write : Text → Action

pub data End : Type 0 where
  finished : End
  panicking : Text → End

-- `http.Handler` over the state `S` of the rest of the world.
abbrev pub Reply : Type 0 → Type 0
Reply S = End × List Action × S

abbrev pub Serve : Type 0 → Type 0
Serve S = Request → S → Reply S

-- What net/http sends: the first status counts, and a write before any status sends 200.
pub record Sent : Type 0 where
  pub status : Option ℕ
  pub body : Text

abbrev pub or_status : Option ℕ → ℕ → ℕ
or_status none code = code
or_status (some code) _ = code

unfoldable pub perform : Sent → Action → Sent
perform sent (set_header _ _) = sent
perform sent (set_cookie _ _ _) = sent
perform sent (write_header code) = record sent { status = some (or_status sent.status code) }
perform sent (write chunk) = record {
  status = some (or_status sent.status 200);
  body = sent.body ++ chunk;
}

unfoldable pub perform_all : Sent → List Action → Sent
perform_all sent [] = sent
perform_all sent (a ∷ as') = perform_all (perform sent a) as'

abbrev pub unsent : Sent
unsent = record { status = none; body = [] }

-- The response on the wire: 200 if the handler wrote nothing.
pub record Response : Type 0 where
  pub status_code : ℕ
  pub body : Text

unfoldable pub respond : List Action → Response
unfolding perform_all perform
respond actions =
    let sent = perform_all unsent actions in
    record { status_code = or_status sent.status 200; body = sent.body }

-- `http.Error(w, text, code)`: it ends the text with a line break.
abbrev pub http_error : Text → ℕ → List Action
http_error message code =
    set_header (bytes "Content-Type") (bytes "text/plain; charset=utf-8")
    ∷ write_header code
    ∷ write (message ++ 10 ∷ [])
    ∷ []

-- `http.Redirect`, less the line of HTML that it writes for the method GET.
abbrev pub redirect : Text → ℕ → List Action
redirect url code = set_header (bytes "Location") url ∷ write_header code ∷ []
