-- ===== src/Domain/Run.antt =====
-- How a handler runs: a state monad with three ends, a log of the calls that it makes with their
-- results, and the stack of its deferred calls, the latest first.
pub mod Post
pub mod Rules
use treenq.Base.{
  List, [], ◌∷◌, ◌++◌, Text, Result, ok, err, Panicking, returns, panics, ◌≡◌, refl, ap,
}
use treenq.Go.{ℤ}
use treenq.Sdk.{Space}
use treenq.Vel.Error.{unknown}
pub use treenq.Vel.Error.{Outcome, done, failed, panicked}
use treenq.Domain.Types.{InstalledRepository, BuildArtifactRequest, Image, AppDefinition}
use treenq.Domain.Handler.{Handler, Done, Op}

pub data Event : Type 0 where
  linked : ℤ → Text → List InstalledRepository → Result Done → Event
  token_issued : ℤ → Result Text → Event
  cloned : Text → ℤ → ℤ → Text → Result Text → Event
  opened : Result Text → Event
  extracted : Text → Text → Result Space → Event
  built : BuildArtifactRequest → Result Image → Event
  saved : AppDefinition → Result AppDefinition → Event
  applied : Text → Text → Result Done → Event
  removed : Text → Event
  closed : Text → Event

pub record World (S : Type 0) : Type 0 where
  pub state : S
  pub events : List Event
  pub deferred : List Event

abbrev pub M : Type 0 → Type 0 → Type 0
M S A = World S → Outcome A × World S

abbrev pub next : {S A B : Type 0} → (A → M S B) → Outcome A × World S → Outcome B × World S
next f (done a, w) = f a w
next f (failed e, w) = (failed e, w)
next f (panicked m, w) = (panicked m, w)

infixl 5 ◌>>=◌ ◌>>◌
abbrev pub ◌>>=◌ : {S A B : Type 0} → M S A → (A → M S B) → M S B
◌>>=◌ m f w = next f (m w)

abbrev pub ◌>>◌ : {S B : Type 0} → M S Done → M S B → M S B
m >> k = m >>= λ _. k

abbrev pub pure : {S A : Type 0} → A → M S A
pure a w = (done a, w)

-- `if err != nil { return …, &vel.Error{Code: "UNKNOWN", Message: err.Error()} }`.
abbrev pub or_unknown {ℓ} : {A : Type ℓ} → Result A → Outcome A
or_unknown (ok a) = done a
or_unknown (err e) = failed (unknown e)

abbrev pub settle :
    {S A : Type 0} → (Result A → Event) → World S → Result A × S → Outcome A × World S
settle event w (r, s) = (or_unknown r, record w { state = s; events = w.events ++ event r ∷ [] })

-- A call of an interface, checked for its error.
unfoldable pub call : {S A : Type 0} → (Result A → Event) → Op S A → M S A
call event op w = settle event w (op w.state)

unfoldable pub defer : {S : Type 0} → Event → M S Done
defer event w = (done tt, record w { deferred = event ∷ w.deferred })

abbrev pub or_panic {ℓ} : {A : Type ℓ} → Panicking A → Outcome A
or_panic (returns a) = done a
or_panic (panics m) = panicked m

unfoldable pub attempt : {S A : Type 0} → Panicking A → M S A
attempt p w = (or_panic p, w)

abbrev pub release : {S : Type 0} → Handler S → S → Event → S
release h s (removed dir) = h.os.remove_all dir s
release h s (closed id) = (h.extractor.close_builder id s).1
release h s _ = s

-- The deferred calls, the last one first, with the events of those that were made.
unfoldable pub run_deferred : {S : Type 0} → Handler S → List Event → S → List Event × S
run_deferred h [] s = ([], s)
run_deferred h (e ∷ es) s = let (log, s') = run_deferred h es (release h s e) in (e ∷ log, s')

pub run_deferred-log :
    {S : Type 0} (h : Handler S) (es : List Event) (s : S) → (run_deferred h es s).0 ≡ es
unfolding run_deferred
run_deferred-log h [] s = refl
run_deferred-log h (e ∷ es) s = ap (λ log. e ∷ log) (run_deferred-log h es (release h s e))

-- A function's body between its entry and its deferred calls, which run however the body ends.
unfoldable pub run : {S A : Type 0} → Handler S → M S A → S → Outcome A × List Event × S
unfolding run_deferred
run h m s =
    let (o, w) = m (record { state = s; events = []; deferred = [] }) in
    let (log, s') = run_deferred h w.deferred w.state in (o, w.events ++ log, s')
