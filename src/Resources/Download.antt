-- ===== src/Resources/Download.antt =====
-- config/file.go: how a resource gets a file, and `contentsMatch` of config/repository_resource.go.
pub mod Stored
use osconfig.Base.{ℕ, ◌+◌, String, ◌<>◌, Bool, true, false, Option, none, some, ◌==◌}
use osconfig.Base.Int.{ℤ}
use osconfig.Resources.{World, Stream, Env, Call, Get, on_error, on_get, give}
use osconfig.Resources.Atomic.{atomic_write_file_stream}
use osconfig.Resources.Disk.{OpenError, not_found, other_error, no_such_file, open_file, read}

-- `OSPolicy_Resource_File`
pub data RemoteFile : Type 0 where
  gcs : String → String → ℤ → RemoteFile
  remote : String → String → RemoteFile
  local : String → RemoteFile
  no_type : RemoteFile

-- `GetLocalPath`
abbrev pub local_path : RemoteFile → String
local_path (local path) = path
local_path _ = ""

abbrev pub open_text : OpenError → String
open_text not_found = no_such_file
open_text (other_error e) = e

module _ (env : Env) where
  -- `checksum`: an error of the reader is not seen.
  abbrev pub checksum : Stream → String
  checksum r = env.sha256 r.text

  -- The reader that a fetch gives is written to the path.
  unfoldable pub store : String → ℕ → String → Get Stream → Get String
  store path perms want fetch =
      on_get fetch (λ _ e. give "" (some e)) (λ r. atomic_write_file_stream env r want path perms)

  unfoldable pub fetch_gcs : String → String → ℤ → Get Stream
  fetch_gcs bucket object generation w =
      let nothing : Stream = record { text = ""; broken = none } in
      let next = record w { tick = w.tick + 1 } in
      elim (env.new_client w.tick) [
        | some e ↦ ((nothing, some ("error creating gcs client: " <> e)), next)
        | none ↦ (env.fetch_gcs_object w.tick bucket object generation, next)
      ]

  unfoldable pub fetch_remote : String → Get Stream
  fetch_remote uri w = (env.fetch_remote_object w.tick uri, record w { tick = w.tick + 1 })

  -- `downloadFile`: an object of the storage has no checksum to test.
  unfoldable pub download_file : String → ℕ → RemoteFile → Get String
  unfolding store fetch_gcs fetch_remote
  download_file path perms (gcs bucket object generation) =
      store path perms "" (fetch_gcs bucket object generation)
  download_file path perms (remote uri sum) = store path perms sum (fetch_remote uri)
  download_file path perms _ = give "" (some "unknown remote File type")

  unfoldable pub contents_match : String → String → World → (Bool × Option String) × World
  contents_match path sum w =
      let (o, w') = open_file env path w in
      elim o [
        | some e ↦ elim e [
          | not_found ↦ ((false, none), w')
          | other_error t ↦ ((false, some t), w')
        ]
        | none ↦ let (r, w'') = read env path w' in ((checksum r == sum, none), w'')
      ]
