-- ===== src/Resources/Atomic.antt =====
-- `NormPath`, `TempFile`, `AtomicWriteFileStream` and `AtomicWrite` of util/util.go.
pub mod Steps
pub mod Safe
use osconfig.Base.{
  ℕ, ◌+◌, String, ◌<>◌, Bool, not, ◌&&◌, Option, none, some, Result, ok, err, panicked, ◌==◌,
  if◌then◌else◌,
}
use osconfig.Base.Texts.{has_prefix, backslashed}
use osconfig.Resources.{World, Stream, Env, Call, Get, on_error, on_get, give}
use osconfig.Resources.Disk.{call, remove, copy, rename, create}

abbrev pub verbatim : String
verbatim = "\\\\?\\"

module _ (env : Env) where
  unfoldable pub norm_path : String → String × Option String
  norm_path path = if has_prefix path verbatim then (path, none) else elim (env.abs path).1 [
    | some e ↦ ("", some e)
    | none ↦
        if env.is_windows
        then (verbatim <> backslashed (env.abs path).0, none)
        else ((env.abs path).0, none)
  ]

  -- `TempFile`: the name of a new file of this directory.
  unfoldable pub temp_file : String → String → ℕ → Get String
  temp_file dir pattern mode w =
      let name = env.join dir (pattern <> (env.random w.tick <> ".tmp")) in
      on_error (create env name mode) (λ e. give "" (some e)) (give name none) w

  -- The deferred removal of the temporary file; that it fails changes nothing.
  unfoldable pub discard : String → World → World
  discard tmp w = (remove env tmp w).1

  -- `AtomicWriteFileStream` from the temporary file on. The deferred function reads the variable `err`
  -- of the function, which of the errors that follow only the one of the copy is written to.
  unfoldable pub write_stream : Stream → String → String → String → Get String
  unfolding discard
  write_stream r checksum path tmp =
      on_error (copy env tmp r) (λ e w. (("", some e), discard tmp w))
        (let computed = env.sha256 r.text in
          if not (checksum == "") && not (env.equal_fold checksum computed)
          then give ""
              (some ("got \"" <> computed <> "\" for checksum, expected \"" <> checksum <> "\""))
          else on_error (call env) (λ e. give "" (some e))
              (λ w. let (e, w') = rename env tmp path w in ((computed, e), w')))

  unfoldable pub atomic_write_file_stream : Stream → String → String → ℕ → Get String
  atomic_write_file_stream r checksum path mode = elim (norm_path path).1 [
    | some e ↦ give "" (some e)
    | none ↦
        let full = (norm_path path).0 in
        on_get (temp_file (env.dir full) (env.base full) mode)
          (λ _ e. give "" (some ("unable to create temp file: " <> e)))
          (λ tmp. write_stream r checksum full tmp)
  ]

  -- The write, the close and the rename of `AtomicWrite`.
  unfoldable pub put_content : String → String → String → Call
  put_content content path tmp =
      on_error (copy env tmp (record { text = content; broken = none })) (λ e w. (some e, w))
        (on_error (call env) (λ e w. (some e, w)) (rename env tmp path))

  -- `AtomicWrite` from the temporary file on: here the deferred function reads the result, so that it
  -- removes the file after any error.
  unfoldable pub write_content : String → String → String → Call
  unfolding discard put_content
  write_content content path tmp =
      on_error (put_content content path tmp) (λ e w. (some e, discard tmp w)) (λ w. (none, w))

  unfoldable pub atomic_write : String → String → ℕ → Call
  atomic_write path content mode = elim (norm_path path).1 [
    | some e ↦ λ w. (some e, w)
    | none ↦
        let full = (norm_path path).0 in
        on_get (temp_file (env.dir full) (env.base full) mode)
          (λ _ e w. (some ("unable to create temp file: " <> e), w))
          (λ tmp. write_content content full tmp)
  ]
