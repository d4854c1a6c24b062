-- ===== src/Tests/Database.antt =====
-- Databases: one that counts the statements of its transactions, one that refuses what does not fit
-- the migration, and one that has a history.
use treenq.Base.{
  ℕ, ◌+◌, true, false, List, [], ◌∷◌, Text, bytes, text_eq, none, Result, ok, err, if◌then◌else◌,
  ◌≡◌, ◌≢◌, refl, sym, ap,
}
use treenq.Go.{pos}
use treenq.Sdk.{Space}
use treenq.Vel.Rpc.{Codec}
use treenq.Domain.Types.{AppDefinition}
use treenq.Repo.Store.{Value, Statement, Sql, row, no_rows, spread}
use treenq.Repo.Store.Transactions.{IsTransactional, AllOrNothing}
use treenq.Repo.Store.Users.{create_user}
use treenq.Repo.Store.Deployments.{save_deployment}
use treenq.Repo.Store.Installations.{
  link_github, save_github_repos, remove_github_repos, insert_installation,
}
use treenq.Repo.Store.Installations.Atomic.{
  IsLink, IsSave, IsRemoval, link_github-AllOrNothing, github_repos-AllOrNothing,
}
use treenq.Repo.Store.Schema.{misfits}
use treenq.Repo.Store.Schema.Refused.{Fails, IsMigrated, create_save_link-Fails}
use treenq.Tests.Demo.{repo, user, space}

record Ledger : Type 0 where
  committed : ℕ
  pending : ℕ

abbrev ledger : Sql Ledger Text
ledger = record {
  to_sql = λ st. ok (bytes "statement", []);
  query_row = λ q args s. (no_rows, s);
  query = λ q args s. (ok (record { rows = []; error = none }), s);
  exec = λ q args s. (ok (ok 1), s);
  begin = λ s. (ok tt, record s { pending = s.committed });
  tx_query_row = λ q args s. (row (bytes "u1" ∷ []), s);
  tx_exec = λ q args s. (ok (ok 1), record s { pending = s.pending + 1 });
  commit = λ s. (ok tt, record s { committed = s.pending });
  rollback = λ s. record s { pending = s.committed };
  scan_text = λ c. ok c;
  scan_int = λ c. ok (pos 0);
  scan_bool = λ c. ok true;
  scan_time = λ c. ok c;
  new_uuid = λ s. (bytes "uuid", s);
  now = λ s. (7, s);
}

abbrev count : Statement → ℕ → ℕ
count st n = n + 1

ledger-IsTransactional : IsTransactional ledger Ledger.committed Ledger.pending count
ledger-IsTransactional = record {
  begin-committed = λ s. refl;
  begin-pending = λ s s' e. ap (λ r. r.1.pending) (sym e);
  tx_query_row-committed = λ q args s. refl;
  tx_query_row-pending = λ q args s. refl;
  tx_exec-committed = λ q args s. refl;
  tx_exec-pending = λ st q args n s s' built e. ap (λ r. r.1.pending) (sym e);
  commit-failed = λ m s s' e. cc;
  commit-done = λ s s' e. ap (λ r. r.1.committed) (sym e);
  rollback-committed = λ s. refl;
  new_uuid-committed = λ s. refl;
  new_uuid-pending = λ s. refl;
  now-committed = λ s. refl;
  now-pending = λ s. refl;
}

abbrev fresh : Ledger
fresh = record { committed = 3; pending = 0 }

link_github-AllOrNothing_example :
    AllOrNothing ledger Ledger.committed Ledger.pending count
      (IsLink (pos 7) (repo 1 true ∷ repo 2 false ∷ []))
      fresh
      (link_github ledger (pos 7) (bytes "ann") (repo 1 true ∷ repo 2 false ∷ []) fresh)
link_github-AllOrNothing_example =
    link_github-AllOrNothing ledger Ledger.committed Ledger.pending count ledger-IsTransactional
      (pos 7) (bytes "ann") (repo 1 true ∷ repo 2 false ∷ []) fresh

github_repos-AllOrNothing_example :
    AllOrNothing ledger Ledger.committed Ledger.pending count
      (IsSave (pos 7) (repo 1 true ∷ []))
      fresh
      (save_github_repos ledger (pos 1) (pos 7) (repo 1 true ∷ []) fresh)
    × AllOrNothing ledger Ledger.committed Ledger.pending count
        (IsRemoval (pos 7) (repo 1 true ∷ []))
        fresh
        (remove_github_repos ledger (pos 7) (repo 1 true ∷ []) fresh)
github_repos-AllOrNothing_example =
    github_repos-AllOrNothing ledger Ledger.committed Ledger.pending count ledger-IsTransactional
      (pos 1) (pos 7) (repo 1 true ∷ []) fresh

-- PostgreSQL with the migration: what does not fit is refused.
abbrev verdict : List Text → Text
verdict [] = bytes "fits"
verdict (_ ∷ _) = bytes "misfit"

abbrev refuse : Text → Result (Result ℕ)
refuse query = if text_eq query (bytes "fits") then ok (ok 1) else err (bytes "refused")

abbrev pub migrated : {S : Type 0} → Sql S Text → Sql S Text
migrated db = record db {
  to_sql = λ st. ok (verdict (misfits st), []);
  exec = λ q args s. (refuse q, s);
  tx_exec = λ q args s. (refuse q, s);
}

refuse-misfit : (names : List Text) → names ≢ [] → refuse (verdict names) ≡ err (bytes "refused")
refuse-misfit [] h = absurd (h refl)
refuse-misfit (_ ∷ _) h = refl

refused :
    {S : Type 0} (db : Sql S Text) (st : Statement) (query : Text) (args : List Value) (s : S)
    → (migrated db).to_sql st ≡ ok (query, args)
    → misfits st ≢ []
    → (e : Text) × (s' : S) × ((migrated db).exec query (spread args) s ≡ (err e, s'))
refused db st query args s built wrong =
    let same : verdict (misfits st) ≡ query = cc in
    (bytes "refused", s, rw (sym same, refuse-misfit (misfits st) wrong) refl)

pub migrated-IsMigrated : {S : Type 0} (db : Sql S Text) → IsMigrated (migrated db)
migrated-IsMigrated db = record { exec-refused = refused db; tx_exec-refused = refused db }

abbrev strict : Sql Ledger Text
strict = migrated ledger

abbrev pub space_json : Codec Space
space_json = record { encode = λ app. ok (bytes "{}"); decode = λ body. ok space }

abbrev deployment : AppDefinition
deployment = record {
  id = [];
  app_id = [];
  app = space;
  tag = bytes "latest";
  sha = bytes "beef";
  user = bytes "ann";
  created_at = [];
}

create_save_link-Fails_example :
    ((id uid : Text) (at : ℕ) → misfits (insert_installation id (pos 7) uid at) ≡ [])
    × Fails (create_user strict user)
    × Fails (link_github strict (pos 7) (bytes "ann") (repo 1 true ∷ []))
    × Fails (save_github_repos strict (pos 1) (pos 7) (repo 1 true ∷ []))
    × Fails (save_deployment strict space_json deployment)
create_save_link-Fails_example =
    create_save_link-Fails strict (migrated-IsMigrated ledger) space_json user deployment (pos 1)
      (pos 7) (bytes "ann") (repo 1 true) []
