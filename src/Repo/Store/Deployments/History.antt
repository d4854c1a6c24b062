-- ===== src/Repo/Store/Deployments/History.antt =====
-- What comes back of the deployments that were saved.
use treenq.Base.{
  List, [], ◌∷◌, All, Text, Option, none, some, ok, Result-cases, Reply-cases, ◌≡◌, inl, inr, sym,
  ap, subst, ◌∙◌, arith,
}
use treenq.Sdk.{zero_space}
use treenq.Vel.Rpc.{Codec}
use treenq.Domain.Types.{AppDefinition}
use treenq.Repo.Store.{Sql, Rows, Value, values}
use treenq.Repo.Store.Scan.{scan_definition}
use treenq.Repo.Store.Deployments.{
  select_history, read_definition, read_history, get_deployment_history,
}

-- The configuration of each definition is the zero value.
abbrev pub AllLost : List AppDefinition → Type 0
AllLost = All (λ def. def.app ≡ zero_space)

module _ {S Cell : Type 0} (db : Sql S Cell) (text_json : Codec Text) where
  -- A row whose payload is the JSON of a string.
  abbrev pub HoldsText : List Cell → Type 0
  HoldsText cells =
      (def : AppDefinition) × (payload : Text) × (scan_definition db cells ≡ ok (def, payload))
      × (text : Text) × (text_json.decode (ok payload) ≡ ok text)

  read_definition-HoldsText :
      (cells : List Cell) {def : AppDefinition}
      → read_definition db text_json (scan_definition db cells) ≡ ok def
      → HoldsText cells × (def.app ≡ zero_space)
  read_definition-HoldsText cells {def = d} e = elim (Result-cases (scan_definition db cells)) [
    | inr (m, bad) ↦ let never = rw bad at e in ground arith
    | inl ((def, payload), read) ↦ elim (Result-cases (text_json.decode (ok payload))) [
      | inr (m, bad) ↦ let never = rw (read, bad) at e in ground arith
      | inl (text, decoded) ↦
          let same : ok (record def { app = zero_space }) ≡ ok d = rw (read, decoded) at e in
          let inner : record def { app = zero_space } ≡ d = cc in
          ((def, payload, read, text, decoded), ap (λ x. x.app) (sym inner))
    ]
  ]

  read_history-HoldsText :
      (rows : List (List Cell)) (error : Option Text) {defs : List AppDefinition}
      → read_history db text_json rows error ≡ ok defs
      → All HoldsText rows × AllLost defs
  unfolding read_history
  read_history-HoldsText [] none {defs = ds} e =
      let none_read : [] ≡ ds = cc in (tt, subst AllLost none_read tt)
  read_history-HoldsText [] (some m) e = ground arith
  read_history-HoldsText (cells ∷ rows) error {defs = ds} e =
      elim (Result-cases (read_definition db text_json (scan_definition db cells))) [
        | inr (m, bad) ↦ let never = rw bad at e in ground arith
        | inl (def, read) ↦ elim (Result-cases (read_history db text_json rows error)) [
          | inr (m, bad) ↦ let never = rw (read, bad) at e in ground arith
          | inl (defs, more) ↦
              let same : ok (def ∷ defs) ≡ ok ds = rw (read, more) at e in
              let whole : def ∷ defs ≡ ds = cc in
              let (first, lost) = read_definition-HoldsText cells read in
              let (rest, all_lost) = read_history-HoldsText rows error more in
              ((first, rest), subst AllLost whole (lost, all_lost))
        ]
      ]

  -- A history that is returned without an error has lost the configuration of every deployment in
  -- it, and it is only returned where each row's payload is the JSON of a string.
  pub get_deployment_history-HoldsText :
      (app_id : Text) (s s' : S) (defs : List AppDefinition)
      → get_deployment_history db text_json app_id s ≡ (ok defs, s')
      → (found : Rows Cell) × (query : Text) × (args : List Value) × (db.to_sql
            (select_history app_id)
          ≡ ok (query, args))
        × (db.query query (values args ∷ []) s ≡ (ok found, s'))
        × All HoldsText found.rows
        × AllLost defs
  unfolding get_deployment_history
  get_deployment_history-HoldsText app_id s s' defs e =
      elim (Result-cases (db.to_sql (select_history app_id))) [
        | inr (m, bad) ↦ let never = rw bad at e in ground arith
        | inl ((query, args), built) ↦ elim (Reply-cases (db.query query (values args ∷ []) s)) [
          | inr (m, s₁, bad) ↦ let never = rw (built, bad) at e in ground arith
          | inl (found, s₁, asked) ↦
              let read = rw (built, asked) at e in
              let (texts, lost) =
                read_history-HoldsText found.rows found.error {defs = defs} (ap (λ r. r.0) read) in
              (found, query, args, built, asked ∙ ap (λ r. (ok found, r.1)) read, texts, lost)
        ]
      ]
