-- ===== src/Resources/Download/Stored.antt =====
-- What a download that returned no error has stored.
use mathlib.Core.Path.{subst}
use osconfig.Base.{
  ℕ, String, true, ◌⊎◌, refl, Option, none, some, ◌≡◌, ◌≢◌, ap, inl, inr, Option-cases, arith, ◌∙◌,
  sym,
}
use osconfig.Base.Dict.{lookup}
use osconfig.Resources.{World, Stream, Env, Get}
use osconfig.Resources.Atomic.{norm_path, atomic_write_file_stream}
use osconfig.Resources.Atomic.Safe.{tmp_name, atomic_write_file_stream-Whole}
use osconfig.Resources.Disk.Calls.{text_of}
use osconfig.Resources.Download.{
  RemoteFile, gcs, remote, local, no_type, store, fetch_gcs, fetch_remote, download_file,
}

module _ (env : Env) where
  -- The path is as `NormPath` leaves it, and is not the name of a temporary file made beside it.
  pub record Plain (path : String) : Type 0 where
    pub normal : norm_path env path ≡ (path, none)
    pub apart : (w : World) → path ≢ tmp_name env path w

  -- The file at the path has the checksum that was returned, and is one that was asked for.
  abbrev pub Stored : (String → Type 0) → String → (String × Option String) × World → Type 0
  Stored IsAsked path end =
      (t : String) × (text_of (lookup path end.1.disk) ≡ some t)
      × (end.0.0 ≡ env.sha256 t)
      × IsAsked t

  -- There is no checksum to test, or the text has it, up to the case of letters.
  abbrev pub HasSum : String → String → Type 0
  HasSum sum t = (sum ≡ "") ⊎ (env.equal_fold sum (env.sha256 t) ≡ true)

  -- The text is what a fetch of the file gave, at the number of its call, with the checksum of the policy.
  abbrev pub IsFetched : RemoteFile → String → Type 0
  IsFetched (gcs bucket object generation) t =
      (n : ℕ) × (t ≡ (env.fetch_gcs_object n bucket object generation).0.text)
  IsFetched (remote uri sum) t =
      ((n : ℕ) × (t ≡ (env.fetch_remote_object n uri).0.text)) × HasSum sum t
  IsFetched (local path) t = ⊥
  IsFetched no_type t = ⊥

  module _ (path : String) (plain : Plain path) (perms : ℕ) where
    asked_sum :
        {t computed checksum : String}
        → computed ≡ env.sha256 t
        → (checksum ≡ "") ⊎ (env.equal_fold checksum computed ≡ true)
        → HasSum checksum t
    asked_sum same (inl none_asked) = inl none_asked
    asked_sum {checksum = checksum} same (inr h) = inr (ap (env.equal_fold checksum) (sym same) ∙ h)

    pub atomic_write_file_stream-Stored :
        (r : Stream) (checksum : String) (w : World)
        → (atomic_write_file_stream env r checksum path perms w).0.1 ≡ none
        → Stored
            (λ t. (t ≡ r.text) × HasSum checksum t)
            path
            (atomic_write_file_stream env r checksum path perms w)
    atomic_write_file_stream-Stored r checksum w e =
        let same : (norm_path env path).0 ≡ path = ap (λ p. p.0) plain.normal in
        let n : (norm_path env path).0 ≢ tmp_name env path w = λ q. plain.apart w (sym same ∙ q) in
        let f = (atomic_write_file_stream-Whole env path perms w n r checksum).on_success e in
        let held = ap text_of f.there ∙ ap some f.whole in
        (
          r.text,
          subst
              (λ p.
                text_of (lookup p (atomic_write_file_stream env r checksum path perms w).1.disk)
                ≡ some r.text)
              same held,
          f.sum,
          (refl, asked_sum f.sum f.asked),
        )

    store-Stored :
        (want : String) (fetch : Get Stream) (w : World)
        → (store env path perms want fetch w).0.1 ≡ none
        → Stored
            (λ t. (t ≡ (fetch w).0.0.text) × HasSum want t)
            path
            (store env path perms want fetch w)
    unfolding store
    store-Stored want fetch w e = elim (Option-cases (fetch w).0.1) [
      | inr (t, f) ↦ absurd (ground arith)
      | inl f ↦
          let same : store env path perms want fetch w
              ≡ atomic_write_file_stream env (fetch w).0.0 want path perms (fetch w).1 =
            ground arith in
          rw same (atomic_write_file_stream-Stored (fetch w).0.0 want (fetch w).1 (ground arith))
    ]

    pub download_file-Stored :
        (file : RemoteFile) (w : World)
        → (download_file env path perms file w).0.1 ≡ none
        → Stored (IsFetched file) path (download_file env path perms file w)
    unfolding download_file
    download_file-Stored (gcs bucket object generation) w e =
        elim (Option-cases (env.new_client w.tick)) [
          | inr (m, failed) ↦ absurd (unfold store fetch_gcs in ground (arith, failed))
          | inl made ↦
              let (t, there, s, (same, _)) =
                store-Stored "" (fetch_gcs env bucket object generation) w e in
              (t, there, s, (w.tick, unfold fetch_gcs in ground (arith, made, same)))
        ]
    download_file-Stored (remote uri sum) w e =
        let (t, there, s, (same, asked)) = store-Stored sum (fetch_remote env uri) w e in
        (t, there, s, ((w.tick, unfold fetch_remote in same), asked))
    download_file-Stored (local p) w e = absurd (cc)
    download_file-Stored no_type w e = absurd (cc)
