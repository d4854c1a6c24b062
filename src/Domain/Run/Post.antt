-- ===== src/Domain/Run/Post.antt =====
-- What a run does to the log and to the deferred calls, as a postcondition over the events that
-- it adds and its end, with the rules for the monad's operations.
use treenq.Base.{
  List, [], ◌∷◌, ◌++◌, append-nil, append_assoc, Text, Bool, true, false, Option, none, some,
  Result, ok, err, Panicking, ◌≡◌, refl, sym, ◌∙◌, ap, All, All-append,
}
use treenq.Vel.Error.{unknown}
use treenq.Domain.Handler.{Handler, Op}
use treenq.Domain.Run.{
  run_deferred-log, M, pure, ◌>>=◌, next, call, attempt, or_panic, or_unknown, run, Outcome, done,
  failed, panicked, World, Event, linked, token_issued, cloned, opened, extracted, built, saved,
  applied, removed, closed,
}

-- The deferred call that an event owes: a clone its removal, an open builder its closing.
abbrev pub release_of : Event → List Event
release_of (cloned _ _ _ _ (ok dir)) = removed dir ∷ []
release_of (opened (ok id)) = closed id ∷ []
release_of _ = []

-- What a list of events owes, the latest first.
abbrev pub releases_of : List Event → List Event
releases_of [] = []
releases_of (e ∷ es) = releases_of es ++ release_of e

pub releases_of-append :
    (xs ys : List Event) → releases_of (xs ++ ys) ≡ releases_of ys ++ releases_of xs
releases_of-append [] ys = sym (append-nil _)
releases_of-append (x ∷ xs) ys =
    rw (releases_of-append xs ys) (append_assoc (releases_of ys) (releases_of xs) (release_of x))

abbrev pub error {ℓ} : {A : Type ℓ} → Result A → Option Text
error (ok _) = none
error (err e) = some e

abbrev pub error_of : Event → Option Text
error_of (linked _ _ _ r) = error r
error_of (token_issued _ r) = error r
error_of (cloned _ _ _ _ r) = error r
error_of (opened r) = error r
error_of (extracted _ _ r) = error r
error_of (built _ r) = error r
error_of (saved _ r) = error r
error_of (applied _ _ r) = error r
error_of (removed _) = none
error_of (closed _) = none

abbrev pub is_release : Event → Bool
is_release (removed _) = true
is_release (closed _) = true
is_release _ = false

abbrev pub Succeeded : Event → Type 0
Succeeded e = (is_release e ≡ false) × (error_of e ≡ none)

-- The end of a run fits its events: all of them succeeded, or the last one alone failed and its
-- error is the one that is returned.
abbrev pub Explains {ℓ} : {A : Type ℓ} → List Event → Outcome A → Type 0
Explains es (done _) = All Succeeded es
Explains es (panicked _) = All Succeeded es
Explains es (failed e) =
    (prior : List Event) × (last : Event) × (message : Text) × (es ≡ prior ++ last ∷ [])
    × All Succeeded prior
    × (is_release last ≡ false)
    × (error_of last ≡ some message)
    × (e ≡ unknown message)

module _ {S A : Type 0} where
  abbrev pub Ran : (List Event → Outcome A → Type 0) → World S → Outcome A × World S → Type 0
  Ran P w (o, w') =
      (new : List Event) × (w'.events ≡ w.events ++ new)
      × (w'.deferred ≡ releases_of new ++ w.deferred)
      × P new o

  abbrev pub Post : (List Event → Outcome A → Type 0) → M S A → Type 0
  Post P m = (w : World S) → Ran P w (m w)

module _ {S A B : Type 0} (P : List Event → Outcome A → Type 0)
    (Q : List Event → Outcome B → Type 0) (f : A → M S B)
    (on_failed : (es : List Event) (e : _) → P es (failed e) → Q es (failed e))
    (on_panicked : (es : List Event) (e : Text) → P es (panicked e) → Q es (panicked e))
    (on_done : (es : List Event) (a : A)
      → P es (done a)
      → Post (λ more o. Q (es ++ more) o) (f a)) where
  Ran-next : (w : World S) (r : Outcome A × World S) → Ran P w r → Ran Q w (next f r)
  Ran-next w (done a, w') (es, same, owed, p) =
      let (more, same', owed', q) = on_done es a p w' in
      (
        es ++ more,
        same' ∙ ap (λ t. t ++ more) same ∙ append_assoc w.events es more,
        owed'
            ∙ ap (λ t. releases_of more ++ t) owed
            ∙ (rw (releases_of-append es more)
                (sym (append_assoc (releases_of more) (releases_of es) w.deferred))),
        q,
      )
  Ran-next w (failed e, w') (es, same, owed, p) = (es, same, owed, on_failed es e p)
  Ran-next w (panicked e, w') (es, same, owed, p) = (es, same, owed, on_panicked es e p)

  pub >>=-Post : (m : M S A) → Post P m → Post Q (m >>= f)
  >>=-Post m post w = Ran-next w (m w) (post w)

-- The strongest postconditions of a call that acquires nothing, and of a computation with no call.
abbrev pub Called {ℓ} : {A : Type ℓ} → (Result A → Event) → List Event → Outcome A → Type ℓ
Called {A} event es o = (r : Result A) × (es ≡ event r ∷ []) × (o ≡ or_unknown r)

abbrev pub Quiet {ℓ} : {A : Type ℓ} → Outcome A → List Event → Outcome A → Type ℓ
Quiet end es o = (es ≡ []) × (o ≡ end)

pub call-Post :
    {S A : Type 0} (event : Result A → Event) (op : Op S A)
    → ((r : Result A) → release_of (event r) ≡ [])
    → Post (Called event) (call event op)
unfolding call
call-Post event op owes_nothing w =
    let r = (op w.state).0 in
    (event r ∷ [], refl, ap (λ t. t ++ w.deferred) (sym (owes_nothing r)), (r, refl, refl))

pub attempt-Post : {S A : Type 0} (p : Panicking A) → Post {S = S} (Quiet (or_panic p)) (attempt p)
unfolding attempt
attempt-Post p w = ([], sym (append-nil _), refl, (refl, refl))

pub pure-Post : {S A : Type 0} (a : A) → Post {S = S} (Quiet (done a)) (pure a)
pure-Post a w = ([], sym (append-nil _), refl, (refl, refl))

-- A weaker postcondition.
pub Post-mono :
    {S A : Type 0} (P Q : List Event → Outcome A → Type 0) (m : M S A)
    → ((es : List Event) (o : Outcome A) → P es o → Q es o)
    → Post P m
    → Post Q m
Post-mono P Q m weaken post w = let (es, same, owed, p) = post w in (es, same, owed, weaken es _ p)

-- Earlier successes keep an end explained.
pub Explains-append :
    {A : Type 0} (es more : List Event) (o : Outcome A)
    → All Succeeded es
    → Explains more o
    → Explains (es ++ more) o
Explains-append es more (done a) h k = All-append Succeeded es more h k
Explains-append es more (panicked e) h k = All-append Succeeded es more h k
Explains-append es more (failed e) h (prior, last, message, same, early, real, why, end) = (
  es ++ prior,
  last,
  message,
  ap (λ t. es ++ t) same ∙ sym (append_assoc es prior (last ∷ [])),
  All-append Succeeded es prior h early,
  real,
  why,
  end,
)

-- Of a run from an empty log: the log is the body's events and then what they owe.
pub run-Post :
    {S A : Type 0} (h : Handler S) (P : List Event → Outcome A → Type 0) (m : M S A) (s : S)
    → Post P m
    → (body : List Event) × ((run h m s).1 ≡ body ++ releases_of body) × P body (run h m s).0
unfolding run
run-Post h P m s post =
    let (es, same, owed, p) = post (record { state = s; events = []; deferred = [] }) in
    let w = (m (record { state = s; events = []; deferred = [] })).1 in
    (es, (rw (run_deferred-log h w.deferred w.state, same, owed, append-nil) refl), p)
