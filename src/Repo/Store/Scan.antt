-- ===== src/Repo/Store/Scan.antt =====
-- src/repo/store.go: the calls of `rows.Scan`, which convert a row's cells into variables.
use treenq.Base.{List, [], ◌∷◌, Text, Result, ok, err}
use treenq.Sdk.{zero_space}
use treenq.Domain.Types.{AppDefinition, InstalledRepository}
use treenq.Repo.Store.{Sql, bad_scan}

infixl 5 ◌>>=◌
abbrev ◌>>=◌ : {A B : Type 0} → Result A → (A → Result B) → Result B
ok a >>= f = f a
err e >>= f = err e

module _ {S Cell : Type 0} (db : Sql S Cell) where
  -- A row of `GetDeploymentHistory`: the definition, without its app, and the payload.
  unfoldable pub scan_definition : List Cell → Result (AppDefinition × Text)
  scan_definition (c₁ ∷ c₂ ∷ c₃ ∷ c₄ ∷ c₅ ∷ c₆ ∷ c₇ ∷ []) = do
    id ← db.scan_text c₁
    app_id ← db.scan_text c₂
    payload ← db.scan_text c₃
    tag ← db.scan_text c₄
    sha ← db.scan_text c₅
    user ← db.scan_text c₆
    created_at ← db.scan_time c₇
    ok (
      record {
        id = id;
        app_id = app_id;
        app = zero_space;
        tag = tag;
        sha = sha;
        user = user;
        created_at = created_at;
      },
      payload,
    )
  scan_definition _ = err bad_scan

  -- A row of `GetGithubRepos`.
  unfoldable pub scan_repository : List Cell → Result InstalledRepository
  scan_repository (c₁ ∷ c₂ ∷ c₃ ∷ c₄ ∷ []) = do
    id ← db.scan_int c₁
    full_name ← db.scan_text c₂
    private ← db.scan_bool c₃
    branch ← db.scan_text c₄
    ok (record { id = id; full_name = full_name; private = private; branch = branch })
  scan_repository _ = err bad_scan
