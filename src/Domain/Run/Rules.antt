-- ===== src/Domain/Run/Rules.antt =====
-- Rules for the two postconditions that the handlers are proved against: that the end of a run
-- fits its log, and what the log is when the run succeeds.
use treenq.Base.{
  List, [], ◌∷◌, ◌++◌, append-nil, Text, Bool, true, false, if◌then◌else◌, Result, ok, err,
  Panicking, returns, panics, ◌≡◌, refl, sym,
}
use treenq.Domain.Handler.{Op}
use treenq.Domain.Run.{
  M, pure, ◌>>=◌, next, settle, call, defer, attempt, Outcome, done, failed, panicked, World, Event,
}
use treenq.Domain.Run.Post.{
  Post, Ran, Called, Explains, Explains-append, >>=-Post, Post-mono, call-Post, release_of,
  error_of, error, is_release,
}

module _ {A : Type 0} where
  -- An event of a result is no release and shows the result's error.
  abbrev pub Shows : (Result A → Event) → Type 0
  Shows event = (r : Result A) → (is_release (event r) ≡ false) × (error_of (event r) ≡ error r)

  Called-Explains :
      (event : Result A → Event)
      → Shows event
      → (es : List Event) (o : Outcome A) → Called event es o
      → Explains es o
  Called-Explains event shows es o (ok a, same, end) =
      rw (same, end) (((shows (ok a)).0, (shows (ok a)).1), tt)
  Called-Explains event shows es o (err e, same, end) =
      rw end ([], event (err e), e, same, tt, (shows (err e)).0, (shows (err e)).1, refl)

module _ {S A : Type 0} where
  pub pure-Explains : (a : A) → Post {S = S} Explains (pure a)
  pure-Explains a w = ([], sym (append-nil w.events), refl, tt)

  pub call-Explains :
      (event : Result A → Event) (op : Op S A)
      → ((r : Result A) → release_of (event r) ≡ [])
      → Shows event
      → Post Explains (call event op)
  call-Explains event op owes_nothing shows =
      Post-mono (Called event) Explains (call event op) (Called-Explains event shows)
        (call-Post event op owes_nothing)

  -- A call followed by the `defer` of its release.
  module _ (event : Result A → Event) (release : A → Event)
      (owed : (a : A) → release_of (event (ok a)) ≡ release a ∷ [])
      (free : (e : Text) → release_of (event (err e)) ≡ []) where
    abbrev pub acquire : Op S A → M S A
    acquire op = call event op >>= λ a. defer (release a) >>= λ _. pure a

    Ran-acquire :
        (w : World S) (r : Result A × S)
        → Ran (Called event) w (next (λ a. defer (release a) >>= λ _. pure a) (settle event w r))
    unfolding defer
    Ran-acquire w (ok a, s) = (event (ok a) ∷ [], refl, (rw (owed a)), (ok a, refl, refl))
    Ran-acquire w (err e, s) = (event (err e) ∷ [], refl, (rw (free e)), (err e, refl, refl))

    pub acquire-Post : (op : Op S A) → Post (Called event) (acquire op)
    unfolding call
    acquire-Post op w = Ran-acquire w (op w.state)

    pub acquire-Explains : (op : Op S A) → Shows event → Post Explains (acquire op)
    acquire-Explains op shows =
        Post-mono (Called event) Explains (acquire op) (Called-Explains event shows)
          (acquire-Post op)

module _ {S A B : Type 0} where
  pub >>=-Explains :
      (m : M S A) (f : A → M S B)
      → Post Explains m
      → ((a : A) → Post Explains (f a))
      → Post Explains (m >>= f)
  >>=-Explains m f first rest =
      >>=-Post Explains Explains f (λ es e p. p) (λ es e p. p)
        (λ es a p.
          Post-mono Explains (λ more o. Explains (es ++ more) o) (f a)
            (λ more o. Explains-append es more o p) (rest a))
        m first

-- Either branch of a test.
pub if-Post :
    {S A : Type 0} (P : List Event → Outcome A → Type 0) (b : Bool) (m n : M S A)
    → ((b ≡ true) → Post P m)
    → ((b ≡ false) → Post P n)
    → Post P (if b then m else n)
if-Post P true m n first second = first refl
if-Post P false m n first second = second refl

-- A postcondition of the successful runs alone.
abbrev pub OnDone {ℓ} : {A : Type ℓ} → (List Event → A → Type 0) → List Event → Outcome A → Type 0
OnDone P es (done a) = P es a
OnDone P es (failed _) = Unit
OnDone P es (panicked _) = Unit

module _ {S A B : Type 0} (P : List Event → A → Type 0) (Q : List Event → B → Type 0) where
  pub >>=-OnDone :
      (m : M S A) (f : A → M S B)
      → Post (OnDone P) m
      → ((es : List Event) (a : A) → P es a → Post (OnDone (λ more b. Q (es ++ more) b)) (f a))
      → Post (OnDone Q) (m >>= f)
  >>=-OnDone m f first rest =
      >>=-Post (OnDone P) (OnDone Q) f (λ es e p. tt) (λ es e p. tt)
        (λ es a p.
          Post-mono (OnDone (λ more b. Q (es ++ more) b)) (λ more o. OnDone Q (es ++ more) o) (f a)
            (λ more o. weaken es more o) (rest es a p))
        m first
    where
      weaken :
          (es more : List Event) (o : Outcome B)
          → OnDone (λ more b. Q (es ++ more) b) more o
          → OnDone Q (es ++ more) o
      weaken es more (done b) q = q
      weaken es more (failed e) q = tt
      weaken es more (panicked e) q = tt

-- A call that succeeds leaves its event with the value.
abbrev pub Yields {ℓ} : {A : Type ℓ} → (Result A → Event) → List Event → A → Type 0
Yields event es a = es ≡ event (ok a) ∷ []

pub Called-Yields {ℓ} :
    {A : Type ℓ} (event : Result A → Event) (es : List Event) (o : Outcome A)
    → Called event es o
    → OnDone (Yields event) es o
Called-Yields event es o (ok a, same, end) = rw end same
Called-Yields event es o (err e, same, end) = rw end tt

pub call-Yields :
    {S A : Type 0} (event : Result A → Event) (op : Op S A)
    → ((r : Result A) → release_of (event r) ≡ [])
    → Post (OnDone (Yields event)) (call event op)
call-Yields event op owes_nothing =
    Post-mono (Called event) (OnDone (Yields event)) (call event op) (Called-Yields event)
      (call-Post event op owes_nothing)

-- What a panicking computation returns, with no event.
abbrev pub Computes {ℓ} : {A : Type ℓ} → Panicking A → List Event → A → Type ℓ
Computes p es a = (es ≡ []) × (p ≡ returns a)

pub attempt-Computes :
    {S A : Type 0} (p : Panicking A) → Post {S = S} (OnDone (Computes p)) (attempt p)
unfolding attempt
attempt-Computes (returns a) w = ([], sym (append-nil w.events), refl, (refl, refl))
attempt-Computes (panics e) w = ([], sym (append-nil w.events), refl, tt)

pub attempt-Explains : {S A : Type 0} (p : Panicking A) → Post {S = S} Explains (attempt p)
unfolding attempt
attempt-Explains (returns a) w = ([], sym (append-nil w.events), refl, tt)
attempt-Explains (panics e) w = ([], sym (append-nil w.events), refl, tt)

pub pure-OnDone :
    {S A : Type 0} (a : A) → Post {S = S} (OnDone (λ es b. (es ≡ []) × (b ≡ a))) (pure a)
pure-OnDone a w = ([], sym (append-nil w.events), refl, (refl, refl))

pub OnDone-of :
    {S A : Type 0} (event : Result A → Event) (m : M S A)
    → Post (Called event) m
    → Post (OnDone (Yields event)) m
OnDone-of event m post =
    Post-mono (Called event) (OnDone (Yields event)) m (Called-Yields event) post

pub OnDone-mono :
    {S A : Type 0} (P Q : List Event → A → Type 0) (m : M S A)
    → ((es : List Event) (a : A) → P es a → Q es a)
    → Post (OnDone P) m
    → Post (OnDone Q) m
OnDone-mono {A} P Q m weaken = Post-mono (OnDone P) (OnDone Q) m widen
  where
    widen : (es : List Event) (o : Outcome A) → OnDone P es o → OnDone Q es o
    widen es (done a) p = weaken es a p
    widen es (failed e) p = tt
    widen es (panicked e) p = tt
