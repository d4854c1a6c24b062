-- ===== src/Vel/Log/Recovery.antt =====
-- What the logging middleware changes of a response, and what it logs.
use treenq.Base.{
  ℕ, List, [], ◌∷◌, ◌++◌, Text, bytes, false, Option, none, some, if◌then◌else◌, ◌≡◌, refl, ◌∙◌, ap,
  arith,
}
use treenq.Vel.Http.{
  Action, finished, panicking, Request, Serve, Sent, perform, perform_all, unsent, respond,
  or_status,
}
use treenq.Vel.Log.{
  ResponseWriter, new_writer, forward, forward_all, recovery, observe, logging_middleware,
}

perform_all-append :
    (sent : Sent) (xs ys : List Action)
    → perform_all sent (xs ++ ys) ≡ perform_all (perform_all sent xs) ys
unfolding perform_all
perform_all-append sent [] ys = refl
perform_all-append sent (x ∷ xs) ys = perform_all-append (perform sent x) xs ys

-- The writer knows the status that was sent, once there is one.
abbrev Knows : ResponseWriter → Sent → Type 0
Knows w sent = sent.status ≡ (if w.wrote_header then some w.status else none)

-- The writer that has sent nothing has the status 0.
abbrev IsFresh : ResponseWriter → Type 0
IsFresh w = w.wrote_header ≡ false → w.status ≡ 0

forward-perform :
    (w : ResponseWriter) (sent : Sent) (a : Action)
    → Knows w sent
    → (perform_all sent (forward w a).1 ≡ perform sent a) × Knows (forward w a).0 (perform sent a)
unfolding forward perform perform_all
forward-perform w sent a known = ground arith

forward_all-perform :
    (w : ResponseWriter) (sent : Sent) (actions : List Action)
    → Knows w sent
    → (perform_all sent (forward_all w actions).1 ≡ perform_all sent actions)
      × Knows (forward_all w actions).0 (perform_all sent actions)
unfolding forward_all perform_all
forward_all-perform w sent [] known = (refl, known)
forward_all-perform w sent (a ∷ actions) known =
    let (same, known') = forward-perform w sent a known in
    let (same', known'') = forward_all-perform (forward w a).0 (perform sent a) actions known' in
    (
      perform_all-append sent (forward w a).1 (forward_all (forward w a).0 actions).1
          ∙ ap (λ t. perform_all t (forward_all (forward w a).0 actions).1) same
          ∙ same',
      known'',
    )

forward-IsFresh : (w : ResponseWriter) (a : Action) → IsFresh w → IsFresh (forward w a).0
unfolding forward
forward-IsFresh w a fresh = ground arith

forward_all-IsFresh :
    (w : ResponseWriter) (actions : List Action) → IsFresh w → IsFresh (forward_all w actions).0
unfolding forward_all
forward_all-IsFresh w [] fresh = fresh
forward_all-IsFresh w (a ∷ actions) fresh =
    forward_all-IsFresh (forward w a).0 actions (forward-IsFresh w a fresh)

respond-forward_all :
    (actions : List Action) → respond (forward_all new_writer actions).1 ≡ respond actions
unfolding respond
respond-forward_all actions =
    ap (λ (sent : Sent). record { status_code = or_status sent.status 200; body = sent.body })
      (forward_all-perform new_writer unsent actions refl).0

-- The status that is logged: 0 where nothing was written.
abbrev pub logged_status : Option ℕ → ℕ
logged_status none = 0
logged_status (some code) = code

Knows-status :
    (w : ResponseWriter) (sent : Sent)
    → Knows w sent
    → IsFresh w
    → w.status ≡ logged_status sent.status
Knows-status w sent known fresh = ground arith

recovered :
    (actions : List Action)
    → ((respond (actions ++ recovery)).status_code
        ≡ or_status (perform_all unsent actions).status 500)
      × ((respond (actions ++ recovery)).body
          ≡ (perform_all unsent actions).body ++ bytes "internal server error")
unfolding respond
recovered actions = rw (perform_all-append unsent actions recovery) (ground arith)

module _ {S : Type 0} (next : Serve S) (r : Request) (s : S) {actions : List Action} {s' : S} where
  -- A handler that returns keeps its state and its response, status and body, behind the
  -- middleware. The status that is logged is the one that was sent, but it is 0 where the handler
  -- wrote nothing, and then the client gets 200.
  pub logging_middleware-finished :
      next r s ≡ (finished, actions, s')
      → (forwarded : List Action) × (logging_middleware next r s ≡ (finished, forwarded, s'))
        × (respond forwarded ≡ respond actions)
        × ((observe next r s).completed ≡ some (logged_status (perform_all unsent actions).status))
  unfolding logging_middleware
  logging_middleware-finished e = (
    (forward_all new_writer actions).1,
    rw (e, logging_middleware, observe) refl,
    respond-forward_all actions,
    rw (e, observe)
        (ap some (
          Knows-status (forward_all new_writer actions).0 (perform_all unsent actions)
            (forward_all-perform new_writer unsent actions refl).1
            (forward_all-IsFresh new_writer actions (λ _. refl)))),
  )

  -- A handler that panics is answered all the same: with its own status if it had sent one, and
  -- else with 500, and with "internal server error" behind what it had written. The state is the
  -- one that the panic left, and no completed request is logged.
  pub logging_middleware-panicking :
      {m : Text}
      → next r s ≡ (panicking m, actions, s')
      → (forwarded : List Action) × (logging_middleware next r s ≡ (finished, forwarded, s'))
        × ((respond forwarded).status_code ≡ or_status (perform_all unsent actions).status 500)
        × ((respond forwarded).body
            ≡ (perform_all unsent actions).body ++ bytes "internal server error")
        × ((observe next r s).completed ≡ none)
  unfolding logging_middleware
  logging_middleware-panicking e = (
    (forward_all new_writer (actions ++ recovery)).1,
    rw (e, logging_middleware, observe) refl,
    rw respond-forward_all (recovered actions).0,
    rw respond-forward_all (recovered actions).1,
    rw (e, observe) refl,
  )
