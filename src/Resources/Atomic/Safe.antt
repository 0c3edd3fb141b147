-- ===== src/Resources/Atomic/Safe.antt =====
-- What the atomic writes leave, whatever call fails.
use osconfig.Base.{
  ℕ, String, ◌<>◌, Option, none, some, ◌≡◌, ◌≢◌, refl, inl, inr, Option-cases, arith, ◌∙◌,
}
use osconfig.Base.Dict.{lookup}
use osconfig.Resources.{File, World, Stream, Env}
use osconfig.Resources.Disk.{create}
use osconfig.Resources.Disk.Calls.{Alters, create-Alters, create-there}
use osconfig.Resources.Atomic.{
  norm_path, temp_file, write_content, atomic_write, write_stream, atomic_write_file_stream,
}
pub use osconfig.Resources.Atomic.Steps.{Fetched, Whole, Holds}
use osconfig.Resources.Atomic.Steps.{
  write_stream_others, write_stream_failed, write_stream_done, write_content-Whole,
}

module _ (env : Env) where
  abbrev pub tmp_name : String → World → String
  tmp_name path w =
      let full = (norm_path env path).0 in
      env.join (env.dir full) (env.base full <> (env.random w.tick <> ".tmp"))

  -- An end with an error that has changed the temporary file alone.
  Whole-failed :
      {Done : Option File → Type 0} (path tmp : String) (before after : World) (e : Option String)
      → path ≢ tmp
      → Alters tmp before after
      → e ≢ none
      → Whole Done path tmp before after e
  Whole-failed path tmp before after e n apart failed = record {
    others = λ q a b. apart q b;
    on_failure = λ x. apart path n;
    on_success = λ x. absurd (failed x);
  }

  -- What is true from the temporary file on is true from before it.
  Whole-later :
      {Done : Option File → Type 0} {path tmp : String} {before between after : World}
      {e : Option String}
      → path ≢ tmp
      → Alters tmp before between
      → Whole Done path tmp between after e
      → Whole Done path tmp before after e
  Whole-later {path = path} n apart h = record {
    others = λ q a b. h.others q a b ∙ apart q b;
    on_failure = λ x. h.on_failure x ∙ apart path n;
    on_success = h.on_success;
  }

  module _ (path : String) (mode : ℕ) (w : World) where
    -- The atomic writes make a temporary file, or stop.
    data Starts {B : Type 0} (write : String → String → World → B) (fails : World → B → Type 0)
        (result : B) : Type 0 where
      stops :
          (v : World) → Alters (tmp_name path w) w v → fails v result → Starts write fails result
      goes :
          (v : World)
          → Alters (tmp_name path w) w v
          → lookup (tmp_name path w) v.disk ≡ some (record { content = ""; perms = mode })
          → result ≡ write (norm_path env path).0 (tmp_name path w) v
          → Starts write fails result

    atomic_write-Starts :
        (content : String)
        → Starts
            (write_content env content)
            (λ v r. (r.1 ≡ v) × (r.0 ≢ none))
            (atomic_write env path content mode w)
    unfolding atomic_write temp_file
    atomic_write-Starts content =
        let tmp = tmp_name path w in
        let v = (create env tmp mode w).1 in
        elim (Option-cases (norm_path env path).1) [
          | inr (t, e) ↦ stops w (λ q m. refl) (ground arith, ground arith)
          | inl e ↦ elim (Option-cases (create env tmp mode w).0) [
            | inr (t, f) ↦ stops v (create-Alters env tmp mode w) (ground arith, ground arith)
            | inl f ↦
                goes v (create-Alters env tmp mode w) (create-there env tmp mode w f) (ground arith)
          ]
        ]

    atomic_write_file_stream-Starts :
        (r : Stream) (checksum : String)
        → Starts
            (write_stream env r checksum)
            (λ v r. (r.1 ≡ v) × (r.0.1 ≢ none))
            (atomic_write_file_stream env r checksum path mode w)
    unfolding atomic_write_file_stream temp_file
    atomic_write_file_stream-Starts r checksum =
        let tmp = tmp_name path w in
        let v = (create env tmp mode w).1 in
        elim (Option-cases (norm_path env path).1) [
          | inr (t, e) ↦ stops w (λ q m. refl) (ground arith, ground arith)
          | inl e ↦ elim (Option-cases (create env tmp mode w).0) [
            | inr (t, f) ↦ stops v (create-Alters env tmp mode w) (ground arith, ground arith)
            | inl f ↦
                goes v (create-Alters env tmp mode w) (create-there env tmp mode w f) (ground arith)
          ]
        ]

    module _ (n : (norm_path env path).0 ≢ tmp_name path w) where
      -- Where the path is not the name of its temporary file, an atomic write changes no other file; after
      -- an error the file is as before, and else it holds the content.
      pub atomic_write-Whole :
          (content : String)
          → Whole
              (Holds content)
              (norm_path env path).0
              (tmp_name path w)
              w
              (atomic_write env path content mode w).1
              (atomic_write env path content mode w).0
      atomic_write-Whole content = elim (atomic_write-Starts content) [
        | stops v apart (same, failed) ↦ Whole-failed _ _ _ _ _ n (rw same apart) failed
        | goes v apart there same ↦
            rw same (Whole-later n apart (write_content-Whole env content _ _ v n there))
      ]

      -- Where the path is not the name of its temporary file, an atomic write of a stream changes no other
      -- file; after an error the file is as before, and else it holds all that the stream gave, which
      -- ended without an error and has the checksum returned, and the one asked for up to the case of
      -- letters, if one was.
      pub atomic_write_file_stream-Whole :
          (r : Stream) (checksum : String)
          → let end = atomic_write_file_stream env r checksum path mode w in
            Whole
              (Fetched env r checksum end.0.0)
              (norm_path env path).0
              (tmp_name path w)
              w
              end.1
              end.0.1
      atomic_write_file_stream-Whole r checksum =
          elim (atomic_write_file_stream-Starts r checksum) [
            | stops v apart (same, failed) ↦ Whole-failed _ _ _ _ _ n (rw same apart) failed
            | goes v apart there same ↦ rw same (
                Whole-later {between = v} n apart (record {
                  others = write_stream_others env r checksum _ _ v n;
                  on_failure = write_stream_failed env r checksum _ _ v n;
                  on_success = write_stream_done env r checksum _ _ v n there;
                }))
          ]
