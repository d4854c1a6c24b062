-- ===== src/Domain/Deployments/Rollback.antt =====
-- When a rollback answers, and when it panics.
use treenq.Base.{
  List, [], ◌∷◌, Text, bytes, text_eq_iff, All, Result, ok, err, ◌≡◌, ◌⊎◌, inl, inr, refl, arith,
}
use treenq.Vel.Error.{unknown, Outcome, done, failed, panicked}
use treenq.Domain.Types.{AppDefinition}
use treenq.Domain.Handler.{Handler}
use treenq.Domain.Deployments.{RollbackRequest, roll_back_all, rollback}

abbrev pub IsTarget : RollbackRequest → AppDefinition → Type 0
IsTarget req def = (def.tag ≡ req.tag) ⊎ (def.sha ≡ req.sha)

abbrev not_implemented {ℓ} : {A : Type ℓ} → Outcome A
not_implemented = panicked (bytes "NOT IMPLEMENTED")

module _ (req : RollbackRequest) where
  roll_back_all-cases :
      (history : List AppDefinition)
      → ((roll_back_all req history ≡ done tt) × All (λ def. ¬ (IsTarget req def)) history)
        ⊎ ((roll_back_all req history ≡ not_implemented)
            × ¬ (All (λ def. ¬ (IsTarget req def)) history))
  unfolding roll_back_all
  roll_back_all-cases [] = inl (refl, tt)
  roll_back_all-cases (def ∷ history) =
      ground (
        arith,
        text_eq_iff def.tag req.tag,
        text_eq_iff def.sha req.sha,
        roll_back_all-cases history,
      )

  -- A rollback returns the history when no definition in it has the tag or the commit that is
  -- asked for; when one has, the rollback panics. It leaves the database's answer to be the only
  -- change of the state, and an error of the database is returned as it is.
  pub rollback-cases :
      {S : Type 0} (h : Handler S) (s s' : S) (r : Result (List AppDefinition))
      → h.db.get_deployment_history req.app_id s ≡ (r, s')
      → ((e : Text) × (r ≡ err e) × (rollback h req s ≡ (failed (unknown e), s')))
        ⊎ ((history : List AppDefinition) × (r ≡ ok history)
            × All (λ def. ¬ (IsTarget req def)) history
            × (rollback h req s ≡ (done history, s')))
        ⊎ ((history : List AppDefinition) × (r ≡ ok history)
            × ¬ (All (λ def. ¬ (IsTarget req def)) history)
            × (rollback h req s ≡ (not_implemented, s')))
  unfolding rollback
  rollback-cases h s s' (err e) answer = inl (e, refl, (rw answer refl))
  rollback-cases h s s' (ok history) answer = elim (roll_back_all-cases history) [
    | inl (same, none_of) ↦ inr (inl (history, refl, none_of, (rw (answer, same) refl)))
    | inr (same, some_of) ↦ inr (inr (history, refl, some_of, (rw (answer, same) refl)))
  ]
