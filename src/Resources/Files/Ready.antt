-- ===== src/Resources/Files/Ready.antt =====
-- That a download leaves the source of a file resource, and that the source is copied whole.
use osconfig.Base.{
  ℕ, ◌+◌, String, Option, none, some, ◌≡◌, ◌≢◌, ap, ◌∙◌, sym, refl, arith, Option-cases, inl, inr,
}
use osconfig.Base.Dict.{Dict, lookup}
use osconfig.Resources.{File, Get, World, Stream, Env}
use osconfig.Resources.Disk.{truncate, make_temp_dir, open_file, read}
use osconfig.Resources.Disk.Calls.{text_of, copy_text, read_text, truncate_text, truncate-Alters}
use osconfig.Resources.Download.Stored.{
  Plain, Stored, IsFetched, atomic_write_file_stream-Stored, download_file-Stored,
}
use osconfig.Resources.Atomic.{atomic_write_file_stream}
use osconfig.Resources.Download.{RemoteFile, gcs, remote, local, no_type, download_file}
use osconfig.Resources.Files.{
  FileConfig, ManagedFile, Source, content, from_file, no_source, copy_file, fill, fetch,
  source_path, fetched, download,
}

module _ (env : Env) where
  fill_done :
      (dst src : String) (w : World) {t : String}
      → text_of (lookup src w.disk) ≡ some t
      → text_of (lookup dst w.disk) ≢ none
      → (fill env dst src w).0 ≡ none
      → text_of (lookup dst (fill env dst src w).1.disk) ≡ some t
  unfolding fill
  fill_done dst src w there opened e =
      let (r, w') = read env src w in
      ground (arith, copy_text env dst r w' (unfold read in opened), read_text env src w there)

  pub copy_file_done :
      (dst src : String) (perms : ℕ) (w : World) {t : String}
      → src ≢ dst
      → text_of (lookup src w.disk) ≡ some t
      → (copy_file env dst src perms w).0 ≡ none
      → text_of (lookup dst (copy_file env dst src perms w).1.disk) ≡ some t
  unfolding copy_file open_file
  copy_file_done dst src perms w n there e =
      let v = (open_file env src w).1 in
      let x = (truncate env dst perms v).1 in
      ground (
        arith,
        fill_done dst src x (ap text_of (truncate-Alters env dst perms v src n) ∙ there),
        truncate_text env dst perms v,
      )

  -- The file of a download: in a new directory, with the name of the managed file.
  abbrev pub temp_file_at : String → ℕ → String
  temp_file_at path n = env.join (env.temp_dir n) (env.base path)

  -- What the names of temporary files are like.
  pub record Named (path : String) : Type 0 where
    pub plain : (n : ℕ) → Plain env (temp_file_at path n)
    pub unmanaged : (n : ℕ) → temp_file_at path n ≢ path
    pub named : (n : ℕ) → temp_file_at path n ≢ ""

  -- The text is the one that the source of a policy names: its own, what a fetch gave, with the checksum
  -- of the policy, or the text of a local file, on the disk given.
  abbrev pub IsSourced : Dict File → Source → String → Type 0
  IsSourced d (content text) t = t ≡ text
  IsSourced d (from_file (local path)) t = text_of (lookup path d) ≡ some t
  IsSourced d (from_file (gcs b o g)) t = IsFetched env (gcs b o g) t
  IsSourced d (from_file (remote uri sum)) t = IsFetched env (remote uri sum) t
  IsSourced d (from_file no_type) t = ⊥
  IsSourced d no_source t = ⊥

  IsFetched-IsSourced :
      (d : Dict File) (f : RemoteFile) (t : String)
      → IsFetched env f t
      → IsSourced d (from_file f) t
  IsFetched-IsSourced d (gcs b o g) t h = h
  IsFetched-IsSourced d (remote uri sum) t h = h
  IsFetched-IsSourced d (local path) t h = absurd h
  IsFetched-IsSourced d no_type t h = h

  -- The source is a file apart from the managed one, has the checksum, and is the policy's.
  pub record Ready (d : Dict File) (s : Source) (m : ManagedFile) (w : World) : Type 0 where
    pub named : m.source ≢ ""
    pub apart : m.source ≢ m.path
    pub text : String
    pub there : text_of (lookup m.source w.disk) ≡ some text
    pub sum : env.sha256 text ≡ m.checksum
    pub sourced : IsSourced d s text

  -- A download that returns no error leaves a source, of the same file.
  pub record Downloaded (d : Dict File) (s : Source) (m : ManagedFile)
      (end : (Option String × ManagedFile) × World) : Type 0 where
    pub ready : Ready d s end.0.1 end.1
    pub same_path : end.0.1.path ≡ m.path
    pub same_state : end.0.1.state ≡ m.state

  fetched-Downloaded :
      (d : Dict File) (s : Source) {IsAsked : String → Type 0} (m : ManagedFile) (get : Get String)
      (w : World)
      → ((t : String) → IsAsked t → IsSourced d s t)
      → m.source ≢ ""
      → m.source ≢ m.path
      → Stored env IsAsked m.source (get w)
      → Downloaded d s m (fetched env m get w)
  unfolding fetched
  fetched-Downloaded d s m get w found named apart (t, there, sum, asked) = record {
    ready = record {
      named = named;
      apart = apart;
      text = t;
      there = there;
      sum = sym sum;
      sourced = found t asked;
    };
    same_path = refl;
    same_state = refl;
  }

  fetch-Downloaded :
      (d : Dict File) (s : Source) (m : ManagedFile) (w : World)
      → Plain env m.source
      → m.source ≢ ""
      → m.source ≢ m.path
      → (fetch env s m m.source w).0.0 ≡ none
      → Downloaded d s m (fetch env s m m.source w)
  unfolding fetch
  fetch-Downloaded d (content text) m w plain named apart e =
      let stream : Stream = record { text = text; broken = none } in
      fetched-Downloaded d (content text) m (atomic_write_file_stream env stream "" m.source 420) w
        (λ t h. h.0) named apart
        (atomic_write_file_stream-Stored env m.source plain 420 stream "" w (unfold fetched in e))
  fetch-Downloaded d (from_file f) m w plain named apart e =
      fetched-Downloaded d (from_file f) m (download_file env m.source 420 f) w
        (IsFetched-IsSourced d f) named apart
        (download_file-Stored env m.source plain 420 f w (unfold fetched in e))
  fetch-Downloaded d no_source m w plain named apart e = absurd (cc)

  pub download-Downloaded :
      (d : Dict File) (r : FileConfig) (m : ManagedFile) (w : World)
      → Named r.path
      → m.path ≡ r.path
      → source_path r ≡ ""
      → (download env r m w).0.0 ≡ none
      → Downloaded d r.source m (download env r m w)
  unfolding download make_temp_dir
  download-Downloaded dict r m w names same blank e = elim (Option-cases (env.fault w.tick)) [
    | inr (t, f) ↦ absurd (ground arith)
    | inl f ↦
        let m' = record m { temp_dir = env.temp_dir w.tick; source = temp_file_at r.path w.tick } in
        let w' = record w { tick = w.tick + 1 } in
        let eq : download env r m w ≡ fetch env r.source m' m'.source w' = ground arith in
        let d =
          fetch-Downloaded dict r.source m' w' (names.plain w.tick) (names.named w.tick)
            (λ x. names.unmanaged w.tick (x ∙ same)) (sym (ap (λ x. x.0.0) eq) ∙ e) in
        rw eq (record { ready = d.ready; same_path = d.same_path; same_state = d.same_state })
  ]
