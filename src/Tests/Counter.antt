-- ===== src/Tests/Counter.antt =====
-- A database that counts its calls and answers all of them.
use treenq.Base.{ℕ, ◌+◌, true, [], ◌∷◌, bytes, Text, none, ok}
use treenq.Go.{pos}
use treenq.Repo.Store.{Sql, row}
use treenq.Tests.Demo.{give}

abbrev pub counter : Sql ℕ Text
counter = record {
  to_sql = λ st. ok (bytes "statement", []);
  query_row = λ q args s. (row (bytes "u1" ∷ []), s + 1);
  query = λ q args. give (record { rows = []; error = none });
  exec = λ q args. give (ok 1);
  begin = give tt;
  tx_query_row = λ q args s. (row (bytes "u1" ∷ []), s + 1);
  tx_exec = λ q args. give (ok 1);
  commit = give tt;
  rollback = λ s. s + 1;
  scan_text = λ c. ok c;
  scan_int = λ c. ok (pos 0);
  scan_bool = λ c. ok true;
  scan_time = λ c. ok c;
  new_uuid = λ s. (bytes "uuid", s + 1);
  now = λ s. (7, s);
}
