-- ===== src/Repo/Store/Deployments.antt =====
-- src/repo/store.go, `SaveDeployment` and `GetDeploymentHistory`.
pub mod History
use treenq.Base.{ℕ, List, [], ◌∷◌, ◌++◌, Text, bytes, Option, none, some, Result, ok, err}
use treenq.Sdk.{Space, zero_space}
use treenq.Vel.Rpc.{Codec}
use treenq.Domain.Types.{AppDefinition}
use treenq.Domain.Handler.{Op}
use treenq.Repo.Store.{
  Statement, select, insert, equals, text, time, values, Rows, Sql, ◌>>=◌, ◌>>◌, then_on, lift,
  within, pure, uuid, timestamp, execute,
}
use treenq.Repo.Store.Scan.{scan_definition}

abbrev pub columns : List Text
columns =
    bytes "id"
    ∷ bytes "appId"
    ∷ bytes "app"
    ∷ bytes "tag"
    ∷ bytes "sha"
    ∷ bytes "user"
    ∷ bytes "createdAt"
    ∷ []

abbrev pub insert_deployment : Text → AppDefinition → Text → ℕ → Statement
insert_deployment id def app_payload at = insert (bytes "deployments") columns (
    (text id
      ∷ text def.app_id
      ∷ text app_payload
      ∷ text def.tag
      ∷ text def.sha
      ∷ text def.user
      ∷ time at
      ∷ [])
    ∷ [])

abbrev pub select_history : Text → Statement
select_history app_id =
    select columns (bytes "deployments") (equals (bytes "appId") (text app_id) ∷ [])
      (bytes "createdAt DESC" ∷ []) (some 20)

-- `json` is the JSON of a Space.
module _ {S Cell : Type 0} (db : Sql S Cell) (json : Codec Space) where
  unfoldable pub save_deployment : AppDefinition → Op S AppDefinition
  unfolding execute
  save_deployment def = do
    id ← uuid db
    app_payload ← lift (bytes "failed to marshal app definition to json: ") (json.encode def.app)
    at ← timestamp db
    execute db (bytes "failed to build SaveDeployment query: ")
        (bytes "failed to exec SaveDeployment: ") (insert_deployment id def app_payload at)
    pure (record def { id = id })

-- `text_json` is the JSON of a string.
module _ {S Cell : Type 0} (db : Sql S Cell) (text_json : Codec Text) where
  -- The payload is decoded into the variable that holds it, and the definition gets the zero value.
  abbrev with_payload : Result Text → AppDefinition → Result AppDefinition
  with_payload (ok _) def = ok def
  with_payload (err e) def =
      err (bytes "failed to decode app payload in GetDeploymentHistory: " ++ e)

  abbrev pub read_definition : Result (AppDefinition × Text) → Result AppDefinition
  read_definition (ok (def, payload)) =
      with_payload (text_json.decode (ok payload)) (record def { app = zero_space })
  read_definition (err e) = err (bytes "failed to scan GetDeploymentHistory row: " ++ e)

  abbrev pub cons_definition :
      Result AppDefinition → Result (List AppDefinition) → Result (List AppDefinition)
  cons_definition (err e) rest = err e
  cons_definition (ok def) (err e) = err e
  cons_definition (ok def) (ok defs) = ok (def ∷ defs)

  abbrev rows_ended : Option Text → Result (List AppDefinition)
  rows_ended none = ok []
  rows_ended (some e) = err (bytes "an error occured in iterating GetDeploymentHistory rows: " ++ e)

  -- The loop over the rows, and `rows.Err` behind it.
  unfoldable pub read_history : List (List Cell) → Option Text → Result (List AppDefinition)
  read_history [] error = rows_ended error
  read_history (cells ∷ rows) error =
      cons_definition (read_definition (scan_definition db cells)) (read_history rows error)

  abbrev pub read_rows : Rows Cell → Op S (List AppDefinition)
  read_rows found s = (read_history found.rows found.error, s)

  -- The arguments are passed as one slice, not one by one.
  unfoldable pub get_deployment_history : Text → Op S (List AppDefinition)
  unfolding read_history
  get_deployment_history app_id =
      lift (bytes "failed to build SaveDeployment query: ") (db.to_sql (select_history app_id))
      >>= λ (query, args).
          within (bytes "failed to query GetDeploymentHistory: ")
            (db.query query (values args ∷ []))
          >>= read_rows
