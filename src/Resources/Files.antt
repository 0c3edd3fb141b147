-- ===== src/Resources/Files.antt =====
-- config/file_resource.go: the resource that manages a file.
pub mod Desires
pub mod Ready
pub mod Refines
pub mod Validates
pub mod Promise
use osconfig.Base.{
  ℕ, ◌+◌, ◌-◌, ◌*◌, String, ◌<>◌, Bool, true, false, not, ◌&&◌, Option, none, some, List, [], ◌∷◌,
  ltb, leb, ◌==◌, if◌then◌else◌,
}
use osconfig.Resources.{World, Stream, Env, Call, Get, on_error, on_get, give}
use osconfig.Resources.Atomic.{atomic_write_file_stream}
use osconfig.Resources.Disk.{
  call, exists, open_file, read, remove, truncate, copy, remove_all, make_temp_dir,
}
use osconfig.Resources.Download.{
  RemoteFile, local_path, open_text, checksum, download_file, contents_match,
}

pub data DesiredState : Type 0 where
  absent present contents_match_state unrecognized : DesiredState

pub data Source : Type 0 where
  content : String → Source
  from_file : RemoteFile → Source
  no_source : Source

-- `OSPolicy_Resource_FileResource`; the permissions are bytes.
pub record FileConfig : Type 0 where
  pub path : String
  pub state : DesiredState
  pub permissions : List ℕ
  pub source : Source

pub record ManagedFile : Type 0 where
  pub path : String
  pub temp_dir : String
  pub source : String
  pub checksum : String
  pub state : DesiredState
  pub permissions : ℕ

abbrev pub new_file : ManagedFile
new_file = record {
  path = "";
  temp_dir = "";
  source = "";
  checksum = "";
  state = unrecognized;
  permissions = 0;
}

-- The digits of `strconv.ParseUint` in base 8, with the value so far.
unfoldable pub octal_digits : ℕ → List ℕ → Option ℕ
octal_digits value [] = some value
octal_digits value (b ∷ bytes) =
    let rest = octal_digits (value * 8 + (b - 48)) bytes in
    if leb 48 b && leb b 55 then rest else none

-- `parsePermissions`: 0644 where there are none, and else a number below 2 ^ 32.
unfoldable pub parse_permissions : List ℕ → Option ℕ
parse_permissions [] = some 420
parse_permissions (b ∷ bytes) = elim (octal_digits 0 (b ∷ bytes)) [
  | none ↦ none
  | some i ↦ if ltb i 4294967296 then some i else none
]

-- `f.GetFile().GetLocalPath()`
abbrev pub source_path : FileConfig → String
source_path r = elim r.source [ from_file f ↦ local_path f | content text ↦ "" | no_source ↦ "" ]

-- A method: what it returns, and the managed file that it leaves.
abbrev pub Method : Type 0 → Type 0
Method A = World → (A × ManagedFile) × World

abbrev pub done : {A : Type 0} → A → ManagedFile → Method A
done a m w = ((a, m), w)

module _ (env : Env) where
  -- The checksum that a download returns is kept also where it fails.
  unfoldable pub fetched : ManagedFile → Get String → Method (Option String)
  fetched m get w = let ((sum, e), w') = get w in ((e, record m { checksum = sum }), w')

  -- The switch of `download` on the kind of the source.
  unfoldable pub fetch : Source → ManagedFile → String → Method (Option String)
  unfolding fetched
  fetch (content text) m tmp_file =
      fetched m
        (atomic_write_file_stream env (record { text = text; broken = none }) "" tmp_file 420)
  fetch (from_file f) m tmp_file = fetched m (download_file env tmp_file 420 f)
  fetch no_source m tmp_file = done (some "unrecognized Source type for FileResource") m

  unfoldable pub download : FileConfig → ManagedFile → Method (Option String)
  unfolding fetch
  download r m =
      if not (source_path r == "")
      then done none m
      else on_get (make_temp_dir env) (λ _ e. done (some ("failed to create working dir: " <> e)) m)
          (λ tmp.
            let tmp_file = env.join tmp (env.base r.path) in
            fetch r.source (record m { temp_dir = tmp; source = tmp_file }) tmp_file)

  -- The last switch of `validate`.
  unfoldable pub acquire : FileConfig → ManagedFile → Method (Option String)
  unfolding download
  acquire r m w = elim m.state [
    | absent ↦ done none m w
    | present ↦
        let (there, w') = exists env m.path w in
        let rest = download r m w' in if there then done none m w' else rest
    | contents_match_state ↦ download r m w
    | unrecognized ↦ done (some "unrecognized DesiredState for FileResource") m w
  ]

  -- A local source is opened, and its checksum is taken.
  unfoldable pub use_local : FileConfig → ManagedFile → Method (Option String)
  unfolding acquire
  use_local r m w =
      let m' = record m { source = source_path r } in
      let (o, w') = open_file env (source_path r) w in
      elim o [
        | some e ↦ done (some (open_text e)) m' w'
        | none ↦
            let (stream, w'') = read env (source_path r) w' in
            acquire r (record m' { checksum = checksum env stream }) w''
      ]

  -- `validate` from the permissions on.
  unfoldable pub validate_present : FileConfig → ManagedFile → Method (Option String)
  unfolding use_local acquire
  validate_present r m = elim (parse_permissions r.permissions) [
    | none ↦ done (some "can't parse permissions") m
    | some perms ↦
        let m' = record m { permissions = perms } in
        if source_path r == "" then acquire r m' else use_local r m'
  ]

  unfoldable pub validate : FileConfig → ManagedFile → Method (Option String)
  unfolding validate_present
  validate r m = elim r.state [
    | unrecognized ↦ done (some "unrecognized DesiredState for FileResource") m
    | absent ↦ done none (record m { state = absent; path = r.path })
    | present ↦ validate_present r (record m { state = present; path = r.path })
    | contents_match_state ↦
        validate_present r (record m { state = contents_match_state; path = r.path })
  ]

  unfoldable pub check_state : ManagedFile → World → (Bool × Option String) × World
  check_state m w = elim m.state [
    | absent ↦ let (there, w') = exists env m.path w in ((not there, none), w')
    | present ↦ let (there, w') = exists env m.path w in ((there, none), w')
    | contents_match_state ↦ contents_match env m.path m.checksum w
    | unrecognized ↦ ((false, some "unrecognized DesiredState for FileResource"), w)
  ]

  -- The copy into an open file and the deferred close, whose error counts if there is no other.
  unfoldable pub fill : String → String → Call
  fill dst src w =
      let (stream, w') = read env src w in
      on_error (copy env dst stream) (λ e v. (some e, (call env v).1))
        (on_error (call env) (λ e v. (some ("error closing destination file: " <> e), v))
          (λ v. (none, v)))
        w'

  unfoldable pub copy_file : String → String → ℕ → Call
  unfolding fill
  copy_file dst src perms w =
      let (o, w') = open_file env src w in
      elim o [
        | some e ↦ (some ("error opening source file: " <> open_text e), w')
        | none ↦
            on_error (truncate env dst perms)
              (λ e v. (some ("error opening destination file: " <> e), v)) (fill dst src) w'
      ]

  -- The copy of the source to the managed path.
  unfoldable pub install : ManagedFile → Method (Bool × Option String)
  unfolding copy_file
  install m =
      on_error (copy_file m.path m.source m.permissions)
        (λ e. done (false, some ("error copying: " <> e)) m) (done (true, none) m)

  unfoldable pub install_present : FileConfig → ManagedFile → Method (Bool × Option String)
  unfolding download install
  install_present r m w =
      if not (m.source == "")
      then install m w
      else (let ((e, m'), w') = download r m w in
          elim e [ some t ↦ done (false, some t) m' w' | none ↦ install m' w' ])

  unfoldable pub enforce_state : FileConfig → ManagedFile → Method (Bool × Option String)
  unfolding install_present
  enforce_state r m = elim m.state [
    | absent ↦
        on_error (remove env m.path) (λ e. done (false, some ("error removing: " <> e)) m)
          (done (true, none) m)
    | present ↦ install_present r m
    | contents_match_state ↦ install_present r m
    | unrecognized ↦ done (false, some "unrecognized DesiredState for FileResource") m
  ]

  unfoldable pub cleanup : ManagedFile → Call
  cleanup m = if not (m.temp_dir == "") then remove_all env m.temp_dir else λ w. (none, w)
