-- ===== src/Repo/Store.antt =====
-- src/repo/store.go: the database. Here are the statements that the operations build, what they use
-- of squirrel, database/sql and the driver, and how their steps are put together; the children have
-- the operations.
pub mod Scan
pub mod Transactions
pub mod Users
pub mod Deployments
pub mod Installations
pub mod Schema
use treenq.Base.{
  ℕ, Bool, List, [], ◌∷◌, ◌++◌, map, Text, bytes, Option, none, Result, ok, err, ◌≡◌, refl, ap,
  arith,
}
use treenq.Go.{ℤ}
use treenq.Domain.Handler.{Op}

pub data Value : Type 0 where
  text : Text → Value
  int : ℤ → Value
  bool : Bool → Value
  time : ℕ → Value

-- `sq.Eq` of a column, with a value or with a slice of them.
pub data Condition : Type 0 where
  equals : Text → Value → Condition
  one_of : Text → List Value → Condition

pub data Statement : Type 0 where
  select : List Text → Text → List Condition → List Text → Option ℕ → Statement
  insert : Text → List Text → List (List Value) → Statement
  delete : Text → List Condition → Statement
  update : Text → List (Text × Value) → List Condition → Statement

-- An argument of a call: the values of a statement one by one, or all of them as one slice.
pub data Argument : Type 0 where
  value : Value → Argument
  values : List Value → Argument

abbrev pub spread : List Value → List Argument
spread = map value

-- What `QueryRow` finds: `sql.ErrNoRows` is told from other errors.
pub data Row (Cell : Type 0) : Type 0 where
  row : List Cell → Row Cell
  no_rows : Row Cell
  row_error : Text → Row Cell

-- What `Query` returns: the rows, and the error that `rows.Err` gives behind them.
pub record Rows (Cell : Type 0) : Type 0 where
  pub rows : List (List Cell)
  pub error : Option Text

-- squirrel's `ToSql`; the calls of a database and of a transaction that is open in the state, with
-- the number of rows that a statement changed; the conversions of `Scan`; identifiers and the time.
pub record Sql (S Cell : Type 0) : Type 0 where
  pub to_sql : Statement → Result (Text × List Value)
  pub query_row : Text → List Argument → S → Row Cell × S
  pub query : Text → List Argument → Op S (Rows Cell)
  pub exec : Text → List Argument → Op S (Result ℕ)
  pub begin : Op S (Unit {0})
  pub tx_query_row : Text → List Argument → S → Row Cell × S
  pub tx_exec : Text → List Argument → Op S (Result ℕ)
  pub commit : Op S (Unit {0})
  pub rollback : S → S
  pub scan_text : Cell → Result Text
  pub scan_int : Cell → Result ℤ
  pub scan_bool : Cell → Result Bool
  pub scan_time : Cell → Result Text
  pub new_uuid : S → Text × S
  pub now : S → ℕ × S

-- Steps that can fail: an error ends the operation.
abbrev pub then_on : {S A B : Type 0} → (A → Op S B) → Result A × S → Result B × S
then_on f (ok a, s) = f a s
then_on f (err e, s) = (err e, s)

-- A chain of steps returns a value exactly when its first step does and the rest from there on.
pub then_on-ok :
    {S A B : Type 0} (f : A → Op S B) (p : Result A × S) (b : B) (s' : S)
    → then_on f p ≡ (ok b, s')
    → (a : A) × (s₁ : S) × (p ≡ (ok a, s₁)) × (f a s₁ ≡ (ok b, s'))
then_on-ok f (ok a, s₁) b s' e = (a, s₁, refl, e)
then_on-ok f (err m, s₁) b s' e = ground arith

infixl 5 ◌>>=◌ ◌>>◌
abbrev pub ◌>>=◌ : {S A B : Type 0} → Op S A → (A → Op S B) → Op S B
◌>>=◌ m f s = then_on f (m s)

abbrev pub ◌>>◌ : {S B : Type 0} → Op S (Unit {0}) → Op S B → Op S B
m >> k = m >>= λ _. k

abbrev pub pure : {S A : Type 0} → A → Op S A
pure a s = (ok a, s)

-- `fmt.Errorf("context: %w", err)`.
abbrev pub wrapped : {A : Type 0} → Text → Result A → Result A
wrapped context (ok a) = ok a
wrapped context (err e) = err (context ++ e)

abbrev pub lift : {S A : Type 0} → Text → Result A → Op S A
lift context r s = (wrapped context r, s)

abbrev pub within : {S A : Type 0} → Text → Op S A → Op S A
within context m s = let (r, s') = m s in (wrapped context r, s')

pub within-ok :
    {S A : Type 0} (context : Text) (m : Op S A) (s : S) (a : A) (s' : S)
    → within context m s ≡ (ok a, s')
    → m s ≡ (ok a, s')
within-ok {S} {A} context m s a s' = go (m s)
  where
    go :
        (p : Result A × S)
        → ◌≡◌ {A = Result A × S} (wrapped context p.0, p.1) (ok a, s')
        → p ≡ (ok a, s')
    go (ok x, s₁) e = e
    go (err x, s₁) e = ground arith

pub returned :
    {S A : Type 0} (a b : A) (s s' : S) → ◌≡◌ {A = Result A × S} (ok a, s) (ok b, s') → a ≡ b
returned {S} {A} a b s s' e = ap (λ p. value p.0) e
  where
    value : Result A → A
    value (ok x) = x
    value (err _) = a

-- `Scan` wants as many variables as there are columns.
abbrev pub bad_scan : Text
bad_scan = bytes "sql: unexpected number of destination arguments in Scan"

module _ {S Cell : Type 0} (db : Sql S Cell) where
  abbrev pub scan_one : List Cell → Result Text
  scan_one (c ∷ []) = db.scan_text c
  scan_one _ = err bad_scan

  abbrev pub one_text : Row Cell → Result Text
  one_text (row cells) = scan_one cells
  one_text no_rows = err (bytes "sql: no rows in result set")
  one_text (row_error e) = err e

  abbrev pub uuid : Op S Text
  uuid s = let (id, s') = db.new_uuid s in (ok id, s')

  abbrev pub timestamp : Op S ℕ
  timestamp s = let (at, s') = db.now s in (ok at, s')

  abbrev pub ignore : Result (Result ℕ) × S → Result (Unit {0}) × S
  ignore (ok _, s) = (ok tt, s)
  ignore (err e, s) = (err e, s)

  -- A statement that is built and executed in the transaction.
  unfoldable pub tx_execute : Text → Text → Statement → Op S (Unit {0})
  tx_execute building executing statement = lift building (db.to_sql statement) >>= λ (query, args).
      within executing (λ s. ignore (db.tx_exec query (spread args) s))

  unfoldable pub execute : Text → Text → Statement → Op S (Unit {0})
  execute building executing statement = lift building (db.to_sql statement) >>= λ (query, args).
      within executing (λ s. ignore (db.exec query (spread args) s))

  -- The deferred `tx.Rollback`, which runs behind a commit too.
  abbrev pub rolled_back : {A : Type 0} → Result A × S → Result A × S
  rolled_back (r, s) = (r, db.rollback s)

  -- A transaction, from its begin to the deferred rollback.
  unfoldable pub in_transaction : {A : Type 0} → Text → Op S A → Op S A
  in_transaction beginning body = within beginning db.begin >> (λ s. rolled_back (body s))

  unfoldable pub commit : Op S (Unit {0})
  commit = within (bytes "failed to commit transaction: ") db.commit
