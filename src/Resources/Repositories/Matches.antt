-- ===== src/Resources/Repositories/Matches.antt =====
-- What an enforcement of a repository leaves, and that a check finds it.
use mathlib.Core.Path.{subst}
use osconfig.Base.{
  ℕ, ◌+◌, String, Bool, true, Option, none, some, ◌≡◌, ◌≢◌, ap, sym, ◌∙◌, arith, Option-cases, inl,
  inr,
}
use osconfig.Base.Dict.{lookup}
use osconfig.Resources.{World, Stream, Env}
use osconfig.Resources.Atomic.{norm_path, atomic_write}
use osconfig.Resources.Atomic.Safe.{tmp_name, atomic_write-Whole}
use osconfig.Resources.Disk.Calls.{text_of, truncate_text, copy_text}
use osconfig.Resources.Disk.{truncate, open_file, read}
use osconfig.Resources.Download.{contents_match}
use osconfig.Resources.Download.Stored.{Plain}
use osconfig.Resources.Repositories.{
  Repository, Setup, GpgFile, ManagedRepository, new_repository, write_file, gpg_file, validate,
  check_state, enforce_repo, enforce_state,
}
use osconfig.Resources.Repositories.Seals.{Sealed, validate-Sealed}

module _ (env : Env) where
  -- The names of the two files are apart, also from those of temporary files.
  pub record Placed (m : ManagedRepository) : Type 0 where
    pub plain : Plain env m.repo_file_path
    pub apart :
        (g : GpgFile) (contents : String)
        → gpg_file m ≡ some (g, contents)
        → (g.path ≢ m.repo_file_path) × ((w : World) → g.path ≢ tmp_name env m.repo_file_path w)

  -- The files have the contents that the resource manages.
  pub record Present (m : ManagedRepository) (w : World) : Type 0 where
    pub repo : text_of (lookup m.repo_file_path w.disk) ≡ some m.repo_file_contents
    pub key :
        (g : GpgFile) (contents : String)
        → gpg_file m ≡ some (g, contents)
        → text_of (lookup g.path w.disk) ≡ some contents

  write_file_done :
      (path text : String) (perms : ℕ) (w : World)
      → (write_file env path text perms w).0 ≡ none
      → text_of (lookup path (write_file env path text perms w).1.disk) ≡ some text
  unfolding write_file
  write_file_done path text perms w e =
      let v = (truncate env path perms w).1 in
      let r : Stream = record { text = text; broken = none } in
      ground (arith, truncate_text env path perms w, copy_text env path r v)

  module _ (path content : String) (perms : ℕ) (w : World) (plain : Plain env path) where
    same : (norm_path env path).0 ≡ path
    same = ap (λ p. p.0) plain.normal

    n : (norm_path env path).0 ≢ tmp_name env path w
    n q = plain.apart w (sym same ∙ q)

    atomic_write_done :
        (atomic_write env path content perms w).0 ≡ none
        → text_of (lookup path (atomic_write env path content perms w).1.disk) ≡ some content
    atomic_write_done e =
        let (f, there, whole) = (atomic_write-Whole env path perms w n content).on_success e in
        subst
          (λ p. text_of (lookup p (atomic_write env path content perms w).1.disk) ≡ some content)
          same (ap text_of there ∙ ap some whole)

    atomic_write_others :
        (q : String)
        → q ≢ path
        → q ≢ tmp_name env path w
        → lookup q (atomic_write env path content perms w).1.disk ≡ lookup q w.disk
    atomic_write_others q a b =
        (atomic_write-Whole env path perms w n content).others q (λ e. a (e ∙ same)) b

  -- A file that has the checksum is found to match.
  contents_match_lem :
      (path sum : String) (w : World) {t : String}
      → text_of (lookup path w.disk) ≡ some t
      → sum ≡ env.sha256 t
      → env.fault w.tick ≡ none
      → env.fault (w.tick + 1) ≡ none
      → contents_match env path sum w ≡ ((true, none), record w { tick = w.tick + 1 + 1 })
  unfolding contents_match open_file read
  contents_match_lem path sum w there e q q' = elim (Option-cases (lookup path w.disk)) [
    | inl f ↦ absurd (ground arith)
    | inr (g, f) ↦ ground arith
  ]

  enforce_repo_done :
      (m : ManagedRepository) (w : World)
      → Placed m
      → (enforce_repo env m w).0.0 ≡ true
      → ((enforce_repo env m w).0.1 ≡ none)
        × (text_of (lookup m.repo_file_path (enforce_repo env m w).1.disk)
            ≡ some m.repo_file_contents)
        × ((g : GpgFile) (contents : String)
            → gpg_file m ≡ some (g, contents)
            → lookup g.path (enforce_repo env m w).1.disk ≡ lookup g.path w.disk)
  unfolding enforce_repo
  enforce_repo_done m w placed e =
      let v = record w { tick = w.tick + 1 } in
      let done = atomic_write_done m.repo_file_path m.repo_file_contents 420 v placed.plain in
      (
        ground arith,
        ground (arith, done),
        λ g c k.
            let (a, b) = placed.apart g c k in
            ground (
              arith,
              atomic_write_others m.repo_file_path m.repo_file_contents 420 v placed.plain g.path a
                  (b v),
            ),
      )

  enforce_state-Present :
      (m : ManagedRepository) (w : World)
      → Placed m
      → (enforce_state env m w).0.0 ≡ true
      → ((enforce_state env m w).0.1 ≡ none) × Present m (enforce_state env m w).1
  unfolding enforce_state
  enforce_state-Present m w placed e = elim (Option-cases (gpg_file m)) [
    | inl k ↦
        let eq : enforce_state env m w ≡ enforce_repo env m w = ground (arith, k) in
        let (no_error, repo, others) =
          enforce_repo_done m w placed (sym (ap (λ x. x.0.0) eq) ∙ e) in
        rw eq (no_error, record { repo = repo; key = λ g c h. absurd (cc) })
    | inr ((g, c), k) ↦
        let v = (write_file env g.path c 420 w).1 in
        let written : (write_file env g.path c 420 w).0 ≡ none = ground (arith, k) in
        let eq : enforce_state env m w ≡ enforce_repo env m v = ground (arith, k, written) in
        let (no_error, repo, others) =
          enforce_repo_done m v placed (sym (ap (λ x. x.0.0) eq) ∙ e) in
        rw eq (
          no_error,
          record {
            repo = repo;
            key = λ g' c' h.
                let same : ◌≡◌ {A = GpgFile × String} (g, c) (g', c') = cc in
                let after = (enforce_repo env m v).1 in
                let done = write_file_done g.path c 420 w written in
                subst (λ (x : GpgFile × String). text_of (lookup x.0.path after.disk) ≡ some x.1)
                  same (ap text_of (others g c k) ∙ done);
          },
        )
  ]

  -- None of the next four calls fails, which are those that a check can make.
  abbrev pub Quiet : World → Type 0
  Quiet w =
      (env.fault w.tick ≡ none)
      × (env.fault (w.tick + 1) ≡ none)
      × (env.fault (w.tick + 1 + 1) ≡ none)
      × (env.fault (w.tick + 1 + 1 + 1) ≡ none)

  check_state_found :
      (m : ManagedRepository) (w : World)
      → Sealed env m
      → Present m w
      → Quiet w
      → ((check_state env m w).0 ≡ (true, none)) × ((check_state env m w).1.disk ≡ w.disk)
  unfolding check_state
  check_state_found m w sealed here (q1, q2, q3, q4) = elim (Option-cases (gpg_file m)) [
    | inl k ↦
        let match =
          contents_match_lem m.repo_file_path m.repo_checksum w here.repo sealed.repo_sum q1 q2 in
        (ground (arith, k, match), ground (arith, k, match))
    | inr ((g, c), k) ↦
        let match =
          contents_match_lem g.path g.checksum w (here.key g c k) (sealed.key_sum g c k) q1 q2 in
        let v = record w { tick = w.tick + 1 + 1 } in
        let match' =
          contents_match_lem m.repo_file_path m.repo_checksum v here.repo sealed.repo_sum q3 q4 in
        (ground (arith, k, match, match'), ground (arith, k, match, match'))
  ]

  -- What an enforcement that says that the repository is as desired has promised.
  pub record Held (m : ManagedRepository) (end : (Bool × Option String) × World) : Type 0 where
    pub no_error : end.0.1 ≡ none
    pub present : Present m end.1
    pub found : Quiet end.1 → (check_state env m end.1).0 ≡ (true, none)
    pub kept : Quiet end.1 → (check_state env m end.1).1.disk ≡ end.1.disk

  -- Let a validation return no error, and let the names of the repository file and of the key file be
  -- apart, also from temporary files. If the enforcement says that the repository is as desired, then it
  -- returns no error, the files hold what the validation made, and a check that follows, none of whose
  -- calls fails, finds them so and changes nothing.
  pub enforce_state-Held :
      (setup : Setup) (r : Repository) (w v : World)
      → (validate env setup r new_repository w).0.0 ≡ none
      → Placed (validate env setup r new_repository w).0.1
      → (enforce_state env (validate env setup r new_repository w).0.1 v).0.0 ≡ true
      → Held
          (validate env setup r new_repository w).0.1
          (enforce_state env (validate env setup r new_repository w).0.1 v)
  enforce_state-Held setup r w v valid placed e =
      let m = (validate env setup r new_repository w).0.1 in
      let sealed = validate-Sealed env setup r w valid in
      let (no_error, present) = enforce_state-Present m v placed e in
      let end = enforce_state env m v in
      record {
        no_error = no_error;
        present = present;
        found = λ q. (check_state_found m end.1 sealed present q).0;
        kept = λ q. (check_state_found m end.1 sealed present q).1;
      }
