-- ===== src/Repo/Store/Transactions.antt =====
-- The transactions of src/repo/store.go: all or nothing, whichever step fails.
use treenq.Base.{
  ℕ, ◌⊎◌, inl, inr, List, [], ◌∷◌, Text, Result, ok, err, Reply-cases, Result-cases, ◌≡◌, refl, sym,
  ap, ◌∙◌, subst,
}
use treenq.Domain.Handler.{Op}
use treenq.Repo.Store.{
  Value, Statement, Argument, spread, Sql, ◌>>=◌, ◌>>◌, uuid, timestamp, tx_execute, in_transaction,
  rolled_back, commit,
}

module _ {S Cell D : Type 0} (db : Sql S Cell) (committed pending : S → D)
    (effect : Statement → D → D) where
  -- A database with transactions: `committed` is what others see, `pending` what the open
  -- transaction has made of it, and `effect` what a statement does.
  pub record IsTransactional : Type 0 where
    pub begin-committed : (s : S) → committed (db.begin s).1 ≡ committed s
    pub begin-pending : (s s' : S) → db.begin s ≡ (ok tt, s') → pending s' ≡ committed s
    pub tx_query_row-committed :
        (query : Text) (args : List Argument) (s : S)
        → committed (db.tx_query_row query args s).1 ≡ committed s
    pub tx_query_row-pending :
        (query : Text) (args : List Argument) (s : S)
        → pending (db.tx_query_row query args s).1 ≡ pending s
    pub tx_exec-committed :
        (query : Text) (args : List Argument) (s : S)
        → committed (db.tx_exec query args s).1 ≡ committed s
    pub tx_exec-pending :
        (st : Statement) (query : Text) (args : List Value) (n : Result ℕ) (s s' : S)
        → db.to_sql st ≡ ok (query, args)
        → db.tx_exec query (spread args) s ≡ (ok n, s')
        → pending s' ≡ effect st (pending s)
    pub commit-failed :
        (e : Text) (s s' : S) → db.commit s ≡ (err e, s') → committed s' ≡ committed s
    pub commit-done : (s s' : S) → db.commit s ≡ (ok tt, s') → committed s' ≡ pending s
    pub rollback-committed : (s : S) → committed (db.rollback s) ≡ committed s
    pub new_uuid-committed : (s : S) → committed (db.new_uuid s).1 ≡ committed s
    pub new_uuid-pending : (s : S) → pending (db.new_uuid s).1 ≡ pending s
    pub now-committed : (s : S) → committed (db.now s).1 ≡ committed s
    pub now-pending : (s : S) → pending (db.now s).1 ≡ pending s

  abbrev pub effects : List Statement → D → D
  effects [] d = d
  effects (st ∷ sts) d = effects sts (effect st d)

  -- How a body ends that was entered with the committed data `c` and the pending data `p`.
  abbrev pub Ended : (List Statement → Type 0) → D → D → Result (Unit {0}) × S → Type 0
  Ended R c p (err e, s) = committed s ≡ c
  Ended R c p (ok _, s) = (sts : List Statement) × R sts × (committed s ≡ effects sts p)

  abbrev pub Ends : (List Statement → Type 0) → Op S (Unit {0}) → Type 0
  Ends R m = (s : S) → Ended R (committed s) (pending s) (m s)

  -- Either an error is returned and nothing is changed for others, or all the statements of one
  -- of the lists that are meant have taken effect, in their order, and nothing else.
  abbrev pub AllOrNothing : (List Statement → Type 0) → S → Result (Unit {0}) × S → Type 0
  AllOrNothing R s r =
      ((e : Text) × (s' : S) × (r ≡ (err e, s')) × (committed s' ≡ committed s))
      ⊎ ((s' : S) × (sts : List Statement) × (r ≡ (ok tt, s'))
          × R sts
          × (committed s' ≡ effects sts (committed s)))

  module _ (laws : IsTransactional) where
    pub Ended-moved :
        (R : List Statement → Type 0) (r : Result (Unit {0}) × S) {c c' p p' : D}
        → Ended R c' p' r
        → c' ≡ c
        → p' ≡ p
        → Ended R c p r
    Ended-moved R r {c} {c'} {p} {p'} h same same' =
        subst (λ d. Ended R d p r) same (subst (λ d. Ended R c' d r) same' h)

    Ended-cons :
        (R : List Statement → Type 0) (st : Statement) (r : Result (Unit {0}) × S) (c p : D)
        → Ended (λ sts. R (st ∷ sts)) c (effect st p) r
        → Ended R c p r
    Ended-cons R st (err e, s) c p h = h
    Ended-cons R st (ok _, s) c p (sts, r, same) = (st ∷ sts, r, same)

    pub commit-Ends : (R : List Statement → Type 0) → R [] → Ends R (commit db)
    unfolding commit
    commit-Ends R r s = elim (Reply-cases (db.commit s)) [
      | inl (_, s', e) ↦ rw (e, commit) ([], r, laws.commit-done s s' e)
      | inr (m, s', e) ↦ rw (e, commit) (laws.commit-failed m s s' e)
    ]

    pub uuid-Ends :
        (R : List Statement → Type 0) (f : Text → Op S (Unit {0}))
        → ((id : Text) → Ends R (f id))
        → Ends R (uuid db >>= f)
    uuid-Ends R f ends s =
        let (id, s') = db.new_uuid s in
        Ended-moved R (f id s') (ends id s') (laws.new_uuid-committed s) (laws.new_uuid-pending s)

    pub timestamp-Ends :
        (R : List Statement → Type 0) (f : ℕ → Op S (Unit {0}))
        → ((at : ℕ) → Ends R (f at))
        → Ends R (timestamp db >>= f)
    timestamp-Ends R f ends s =
        let (at, s') = db.now s in
        Ended-moved R (f at s') (ends at s') (laws.now-committed s) (laws.now-pending s)

    pub tx_execute-Ends :
        (R : List Statement → Type 0) (building executing : Text) (st : Statement)
        (k : Op S (Unit {0}))
        → Ends (λ sts. R (st ∷ sts)) k
        → Ends R (tx_execute db building executing st >> k)
    unfolding tx_execute
    tx_execute-Ends R building executing st k ends s = elim (Result-cases (db.to_sql st)) [
      | inr (m, e) ↦ rw (e, tx_execute) refl
      | inl ((query, args), e) ↦
          let kept = laws.tx_exec-committed query (spread args) s in
          elim (Reply-cases (db.tx_exec query (spread args) s)) [
            | inr (m, s', bad) ↦ rw (e, bad, tx_execute) (ap (λ p. committed p.1) (sym bad) ∙ kept)
            | inl (n, s', good) ↦
                rw (e, good, tx_execute)
                  (Ended-cons R st (k s') (committed s) (pending s) (
                    Ended-moved (λ sts. R (st ∷ sts)) (k s') (ends s')
                      (ap (λ p. committed p.1) (sym good) ∙ kept)
                      (laws.tx_exec-pending st query args n s s' e good)))
          ]
    ]

    Ended-rollback :
        (R : List Statement → Type 0) (r : Result (Unit {0}) × S) (c p : D)
        → Ended R c p r
        → Ended R c p (rolled_back db r)
    Ended-rollback R (err e, s) c p h = laws.rollback-committed s ∙ h
    Ended-rollback R (ok _, s) c p (sts, r, same) = (sts, r, laws.rollback-committed s ∙ same)

    Ended-AllOrNothing :
        (R : List Statement → Type 0) (s : S) (r : Result (Unit {0}) × S)
        → Ended R (committed s) (committed s) r
        → AllOrNothing R s r
    Ended-AllOrNothing R s (err e, s') h = inl (e, s', refl, h)
    Ended-AllOrNothing R s (ok _, s') (sts, r, same) = inr (s', sts, refl, r, same)

    pub in_transaction-AllOrNothing :
        (R : List Statement → Type 0) (beginning : Text) (body : Op S (Unit {0})) (s : S)
        → Ends R body
        → AllOrNothing R s (in_transaction db beginning body s)
    unfolding in_transaction
    in_transaction-AllOrNothing R beginning body s ends =
        Ended-AllOrNothing R s (in_transaction db beginning body s)
          (elim (Reply-cases (db.begin s)) [
            | inr (m, s', bad) ↦
                rw (bad, in_transaction)
                  (ap (λ p. committed p.1) (sym bad) ∙ laws.begin-committed s)
            | inl (_, s', good) ↦
                let same = ap (λ p. committed p.1) (sym good) ∙ laws.begin-committed s in
                rw (good, in_transaction)
                  (Ended-rollback R (body s') (committed s) (committed s)
                    (Ended-moved R (body s') (ends s') same (laws.begin-pending s s' good)))
          ])
