-- ===== src/Repo/Git/Fetched.antt =====
-- What a clone that returns no error has done.
use treenq.Base.{Text, bytes, Result, ok, ◌≡◌, ◌≢◌, refl, sym, ap, subst, ◌∙◌, ◌↔◌, arith}
use treenq.Go.{ℤ}
use treenq.Domain.Handler.{Op}
use treenq.Repo.Store.{◌>>=◌, ◌>>◌, then_on-ok, within-ok, returned, within, pure}
use treenq.Repo.Git.{
  Stat, there, missing, unreadable, CloneEnd, cloned, already_exists, not_cloned, PullEnd, pulled,
  up_to_date, not_pulled, GitLibrary, clone_dir, made_dir, with_access, pull_ended, pull_existing,
  clone_ended, clone,
}

module _ {Url Repository Worktree S : Type 0} (lib : GitLibrary Url Repository Worktree S) where
  -- The directory is there before the clone: it was made if nothing was there.
  pub data Ready (path : Text) : S → S → Type 0 where
    made :
        {s s' : S}
        → lib.stat path s ≡ missing
        → lib.mkdir_all path s ≡ (ok tt, s')
        → Ready path s s'
    kept : {s : S} → lib.stat path s ≢ missing → Ready path s s

  -- A pull that brought the directory up to date, or found it so.
  pub data Current : PullEnd → Type 0 where
    by_pull : Current pulled
    as_it_was : Current up_to_date

  -- The repository is in the directory: it was cloned, or an earlier clone of it was opened and its
  -- worktree pulled from its origin.
  pub data Fetched (path url : Text) : S → S → Type 0 where
    by_clone : {s s' : S} → lib.plain_clone path url s ≡ (cloned, s') → Fetched path url s s'
    in_place :
        {s s₁ s₂ s₃ s' : S} {r : Repository} {w : Worktree} {end : PullEnd}
        → lib.plain_clone path url s ≡ (already_exists, s₁)
        → lib.plain_open path s₁ ≡ (ok r, s₂)
        → lib.worktree r s₂ ≡ (ok w, s₃)
        → lib.pull (bytes "origin") w s₃ ≡ (end, s')
        → Current end
        → Fetched path url s s'

  made_dir-Ready :
      (path : Text) (s s' : S)
      → made_dir lib path (lib.stat path s) s ≡ (ok tt, s')
      → Ready path s s'
  made_dir-Ready path s s' = go (lib.stat path s) refl
    where
      same_state : {s₁ s₂ : S} → ◌≡◌ {A = Result (Unit {0}) × S} (ok tt, s₁) (ok tt, s₂) → s₁ ≡ s₂
      same_state e = ap (λ p. p.1) e

      go : (x : Stat) → lib.stat path s ≡ x → made_dir lib path x s ≡ (ok tt, s') → Ready path s s'
      go missing nothing e =
          made nothing
            (within-ok (bytes "failed to create clone directory: ") (lib.mkdir_all path) s tt s' e)
      go there found e = subst (Ready path s) (same_state e) (kept (λ nothing. ground arith))
      go unreadable found e = subst (Ready path s) (same_state e) (kept (λ nothing. ground arith))

  pull_ended-Current :
      (p : PullEnd × S) (s' : S)
      → pull_ended lib p ≡ (ok tt, s')
      → (end : PullEnd) × (p ≡ (end, s')) × Current end
  pull_ended-Current (pulled, s) s' e = (pulled, ap (λ r. (pulled, r.1)) e, by_pull)
  pull_ended-Current (up_to_date, s) s' e = (up_to_date, ap (λ r. (up_to_date, r.1)) e, as_it_was)
  pull_ended-Current (not_pulled m, s) s' e = ground arith

  pull_existing-Fetched :
      (path url : Text) (s s₁ s' : S)
      → lib.plain_clone path url s ≡ (already_exists, s₁)
      → pull_existing lib path s₁ ≡ (ok tt, s')
      → Fetched path url s s'
  unfolding pull_existing
  pull_existing-Fetched path url s s₁ s' c e =
      let opening = bytes "error while opening the repo: " in
      let checking = bytes "error while getting worktree: " in
      let pull_in : Worktree → Op S (Unit {0}) =
        λ w s₀. pull_ended lib (lib.pull (bytes "origin") w s₀) in
      let (r, s₂, opened, e₁) =
        then_on-ok (λ r. within checking (lib.worktree r) >>= pull_in)
          (within opening (lib.plain_open path) s₁) tt s' e in
      let (w, s₃, checked, e₂) =
        then_on-ok pull_in (within checking (lib.worktree r) s₂) tt s' e₁ in
      let (end, pulling, current) = pull_ended-Current (lib.pull (bytes "origin") w s₃) s' e₂ in
      in_place c (within-ok opening (lib.plain_open path) s₁ r s₂ opened)
        (within-ok checking (lib.worktree r) s₂ w s₃ checked) pulling current

  clone_ended-Fetched :
      (path url : Text) (s s' : S)
      → clone_ended lib path (lib.plain_clone path url s) ≡ (ok tt, s')
      → Fetched path url s s'
  clone_ended-Fetched path url s s' = go (lib.plain_clone path url s) refl
    where
      go :
          (p : CloneEnd × S)
          → lib.plain_clone path url s ≡ p
          → clone_ended lib path p ≡ (ok tt, s')
          → Fetched path url s s'
      go (cloned, s₁) c e = by_clone (c ∙ ap (λ r. (cloned, r.1)) e)
      go (not_cloned m, s₁) c e = ground arith
      go (already_exists, s₁) c e = pull_existing-Fetched path url s s₁ s' c e

  Ready-made_dir :
      (path : Text) (s s' : S)
      → Ready path s s'
      → made_dir lib path (lib.stat path s) s ≡ (ok tt, s')
  Ready-made_dir path s s' (made nothing done) = rw (nothing, done) refl
  Ready-made_dir path s s' (kept found) = go (lib.stat path s) refl
    where
      go : (x : Stat) → lib.stat path s ≡ x → made_dir lib path x s ≡ (ok tt, s')
      go missing nothing = absurd (found nothing)
      go there _ = refl
      go unreadable _ = refl

  Fetched-clone_ended :
      (path url : Text) (s s' : S)
      → Fetched path url s s'
      → clone_ended lib path (lib.plain_clone path url s) ≡ (ok tt, s')
  unfolding pull_existing
  Fetched-clone_ended path url s s' (by_clone c) = rw c refl
  Fetched-clone_ended path url s s' (in_place c opened checked pulling by_pull) =
      rw (c, opened, checked, pulling) refl
  Fetched-clone_ended path url s s' (in_place c opened checked pulling as_it_was) =
      rw (c, opened, checked, pulling) refl

clone-Fetched :
    {Url Repository Worktree S : Type 0} (lib : GitLibrary Url Repository Worktree S)
    (dir url_str token path : Text) (installation_id repo_id : ℤ) (s s' : S)
    → clone lib dir url_str installation_id repo_id token s ≡ (ok path, s')
    → (path ≡ clone_dir dir installation_id repo_id)
      × (url : Url) × (s₁ : S) × (lib.parse_url url_str ≡ ok url)
      × Ready lib (clone_dir dir installation_id repo_id) s s₁
      × Fetched lib
          (clone_dir dir installation_id repo_id)
          (lib.url_text (with_access lib token url))
          s₁
          s'
unfolding clone
clone-Fetched {Url} {Repository} {Worktree} {S} lib dir url_str token path installation_id repo_id s
      s' e =
    let target = clone_dir dir installation_id repo_id in
    let fetch : Url → Op S (Unit {0}) = λ url s₀.
      clone_ended lib target
        (lib.plain_clone target (lib.url_text (with_access lib token url)) s₀) in
    let then_fetch : Url → Op S Text = λ url. fetch url >> pure target in
    let read : Op S Url = λ s₀. (lib.parse_url url_str, s₀) in
    let (_, s₁, making, e₁) =
      then_on-ok (λ _. read >>= then_fetch) (made_dir lib target (lib.stat target s) s) path s' e in
    let (url, s₂, parsing, e₂) = then_on-ok then_fetch (read s₁) path s' e₁ in
    let (_, s₃, cloning, e₃) = then_on-ok (λ _. pure target) (fetch url s₂) path s' e₂ in
    (
      sym (returned target path s₃ s' e₃),
      url,
      s₁,
      ap (λ p. p.0) parsing,
      made_dir-Ready lib target s s₁ making,
      subst (λ from. Fetched lib target (lib.url_text (with_access lib token url)) from s')
          (sym (ap (λ p. p.1) parsing))
          (subst (Fetched lib target (lib.url_text (with_access lib token url)) s₂)
            (ap (λ p. p.1) e₃)
            (clone_ended-Fetched lib target (lib.url_text (with_access lib token url)) s₂ s₃
              cloning)),
    )

-- A clone returns a path without an error exactly when the path is the directory of the installation
-- and the repository, the directory was there or has been made, the repository's address can be
-- read, and the repository was cloned into it from the address with the token in it, or the clone
-- that was there was opened and pulled from its origin.
pub clone_iff :
    {Url Repository Worktree S : Type 0} (lib : GitLibrary Url Repository Worktree S)
    (dir url_str token path : Text) (installation_id repo_id : ℤ) (s s' : S)
    → (clone lib dir url_str installation_id repo_id token s ≡ (ok path, s')) ↔ (
        (path ≡ clone_dir dir installation_id repo_id)
        × (url : Url) × (s₁ : S) × (lib.parse_url url_str ≡ ok url)
        × Ready lib (clone_dir dir installation_id repo_id) s s₁
        × Fetched lib
            (clone_dir dir installation_id repo_id)
            (lib.url_text (with_access lib token url))
            s₁
            s')
unfolding clone
clone_iff lib dir url_str token path installation_id repo_id s s' = (
  clone-Fetched lib dir url_str token path installation_id repo_id s s',
  λ (same, url, s₁, parsed, ready, fetched).
      rw
        (
          Ready-made_dir lib (clone_dir dir installation_id repo_id) s s₁ ready,
          parsed,
          Fetched-clone_ended lib (clone_dir dir installation_id repo_id)
              (lib.url_text (with_access lib token url)) s₁ s' fetched,
          same,
        )
        refl,
)
