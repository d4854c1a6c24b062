-- ===== src/Api/Assembly/Extracted.antt =====
-- The fuel that the program's extractor is given.
use treenq.Base.{Text, some, ◌≡◌, refl, arith}
use treenq.Repo.Extract.{BuilderConfig, extract_config}
use treenq.Repo.Extract.Ends.{IsNested, extract_config-Ends}
use treenq.Api.Assembly.{Outside, enough_fuel, extract}

-- On a disk where a directory is nested deeper than those in it, and where writing a file makes no
-- directory, the program's extractor has what an extraction ends with: its fuel never runs out.
extract_config-extract :
    {S : Type 0} (out : Outside S) (e : BuilderConfig) (id repo_dir : Text) (s : S)
    → IsNested out.extraction.files out.depth
    → extract_config out.extraction e (enough_fuel out e id repo_dir s) id repo_dir s
      ≡ some (extract out e id repo_dir s)
unfolding extract
extract_config-extract out e id repo_dir s nested =
    let (r, ended) =
      extract_config-Ends out.extraction out.depth e (enough_fuel out e id repo_dir s) id repo_dir s
        nested (omega arith) in
    rw ended refl
