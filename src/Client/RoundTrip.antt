-- ===== src/Client/RoundTrip.antt =====
-- The client's methods against the server's handlers: what a call of the handler ends in is what
-- the client returns.
use treenq.Base.{ltb, ◌==◌, ◌||◌, ◌&&◌, List, [], ◌∷◌, Text, Bool, true, false, none, ok, ◌≡◌, refl}
use treenq.Go.Utf8.{IsUtf8}
use treenq.Vel.Error.{VelError, Outcome, done, failed, panicked}
use treenq.Vel.Http.{Request, Serve, respond, finished, Action}
use treenq.Vel.Rpc.{Codec}
use treenq.Client.{Client, OutRequest, Network, Received, received, refused, broken, handle_err}

-- Every valid value has a text, which decodes to it.
pub record IsFaithful {A : Type 0} (codec : Codec A) (valid : A → Type 0) : Type 0 where
  pub text_of : A → Text
  pub encodes : (a : A) → valid a → codec.encode a ≡ ok (text_of a)
  pub decodes : (a : A) → valid a → codec.decode (ok (text_of a)) ≡ ok a

abbrev text_ltb : Text → Text → Bool
text_ltb _ [] = false
text_ltb [] (d ∷ t) = true
text_ltb (c ∷ s) (d ∷ t) = ltb c d || c == d && text_ltb s t

abbrev is_below : Text → List (Text × Text) → Bool
is_below k [] = true
is_below k ((j, _) ∷ m) = text_ltb k j

-- A map of texts in the order of its keys, each of which stands once: encoding/json writes and reads
-- it in this order, and brings those texts back that are UTF-8.
abbrev IsOrdered : List (Text × Text) → Type 0
IsOrdered [] = Unit
IsOrdered ((k, v) ∷ m) = IsUtf8 k × IsUtf8 v × (is_below k m ≡ true) × IsOrdered m

-- An error that JSON brings back as it was.
abbrev pub IsWritable : VelError → Type 0
IsWritable e = IsUtf8 e.code × IsUtf8 e.message × IsOrdered e.meta

abbrev pub IsErrorJson : Codec VelError → Type 0
IsErrorJson codec = IsFaithful codec IsWritable

-- What the call ends with can be told as it is.
abbrev pub Tellable : {A : Type 0} → (A → Type 0) → Outcome A → Type 0
Tellable valid (done a) = valid a
Tellable valid (failed e) = IsWritable e
Tellable valid (panicked m) = ⊥

-- The network brings a request to the handler, body and all, and its response back.
pub record Connects {S : Type 0} (net : Network S) (serve : Serve S) : Type 0 where
  pub incoming : OutRequest → Request
  pub incoming-body : (out : OutRequest) → (incoming out).body ≡ ok out.body
  pub accepts : (url : Text) → net.new_request_error url ≡ none
  pub connects :
      (out : OutRequest) (s s' : S) (actions : List Action)
      → serve (incoming out) s ≡ (finished, actions, s')
      → net.exchange out s ≡ (ok (respond actions), s')

-- What the client is to return for the end of a call that is no panic.
abbrev pub told {ℓ} : {A : Type ℓ} → Outcome A → Received A
told (done a) = received a
told (failed e) = refused e
told (panicked m) = broken m

abbrev pub told_done {ℓ} : {A : Type ℓ} → Outcome A → Received (Unit {0})
told_done (done a) = received tt
told_done (failed e) = refused e
told_done (panicked m) = broken m

-- No status of an error stands on an answer without one.
handle_err-200 :
    (json : Codec VelError) (actions : List Action)
    → (respond actions).status_code ≡ 200
    → handle_err json (respond actions) ≡ none
unfolding handle_err
handle_err-200 json actions h = rw h refl
