-- ===== src/Resources/Files/Validates.antt =====
-- What a validation of a file resource leaves, and that the resource keeps its promise from then on.
use osconfig.Resources.Files.Ready.{IsSourced, Named, Ready, download-Downloaded}
use osconfig.Resources.Files.Refines.{Prepared}
use osconfig.Base.{
  Bool-cases, sym, ap, ◌∙◌, inl, inr, ◌+◌, none, ◌≡◌, ◌≢◌, ap, ◌∙◌, sym, refl, arith, Option-cases,
  inl, inr, ◌==◌, String, some,
}
use osconfig.Base.Dict.{Dict, lookup}
use osconfig.Resources.Disk.Calls.{text_of}
use osconfig.Resources.{File, World, Env}
use osconfig.Resources.Disk.{exists, open_file, read}
use osconfig.Resources.Disk.Calls.{text_of}
use osconfig.Resources.Download.{gcs, remote as remote_uri, local, no_type}
use osconfig.Resources.Files.{
  parse_permissions, validate_present, validate, new_file, validate, validate_present, use_local,
  acquire, new_file, source_path, download, FileConfig, DesiredState, absent, present,
  contents_match_state, unrecognized, Source, content, from_file, no_source, FileConfig,
  ManagedFile, source_path, download,
}

module _ (env : Env) where
  module _ (d : Dict File) (r : FileConfig) (names : Named env r.path) where
    -- What is known before the last switch of a validation.
    record Given (m : ManagedFile) (w : World) : Type 0 where
      path : m.path ≡ r.path
      state : m.state ≡ r.state
      ready : m.source ≢ "" → Ready env d r.source m w
      remote : m.source ≡ "" → source_path r ≡ ""

    Given-Prepared : (m : ManagedFile) (w : World) → Given m w → Prepared env d r m w
    Given-Prepared m w g = record {
      path = g.path;
      state = g.state;
      source = λ n. g.ready;
      remote = λ n. g.remote;
    }

    download-Prepared :
        (m : ManagedFile) (w : World)
        → Given m w
        → (download env r m w).0.0 ≡ none
        → Prepared env d r (download env r m w).0.1 (download env r m w).1
    download-Prepared m w g e = elim (Bool-cases (source_path r == "")) [
      | inl blank ↦
          let done = download-Downloaded env d r m w names g.path (ground arith) e in
          record {
            path = done.same_path ∙ g.path;
            state = done.same_state ∙ g.state;
            source = λ n s. done.ready;
            remote = λ n x. absurd (done.ready.named x);
          }
      | inr some_path ↦
          let eq : download env r m w ≡ ((none, m), w) = unfold download in ground arith in
          rw eq (Given-Prepared m w g)
    ]

    acquire-Prepared :
        (m : ManagedFile) (w : World)
        → Given m w
        → (acquire env r m w).0.0 ≡ none
        → Prepared env d r (acquire env r m w).0.1 (acquire env r m w).1
    unfolding acquire exists
    acquire-Prepared m w g e = go m.state refl
      where
        v : World
        v = (exists env m.path w).1

        later : Given m v
        later = record {
          path = g.path;
          state = g.state;
          ready = λ n.
              let x = g.ready n in
              record {
                named = x.named;
                apart = x.apart;
                text = x.text;
                there = ground (arith, x.there);
                sum = x.sum;
                sourced = x.sourced;
              };
          remote = g.remote;
        }

        go :
            (state : DesiredState)
            → m.state ≡ state
            → Prepared env d r (acquire env r m w).0.1 (acquire env r m w).1
        go absent s =
            let eq : acquire env r m w ≡ ((none, m), w) = ground arith in
            rw eq (Given-Prepared m w g)
        go present s = elim (Bool-cases (exists env m.path w).0) [
          | inl there ↦
              let eq : acquire env r m w ≡ ((none, m), v) = ground arith in
              rw eq (Given-Prepared m v later)
          | inr missing ↦
              let eq : acquire env r m w ≡ download env r m v = ground arith in
              rw eq (download-Prepared m v later (sym (ap (λ x. x.0.0) eq) ∙ e))
        ]
        go contents_match_state s =
            let eq : acquire env r m w ≡ download env r m w = ground arith in
            rw eq (download-Prepared m w g (sym (ap (λ x. x.0.0) eq) ∙ e))
        go unrecognized s = absurd (ground arith)

    local-IsSourced :
        (s : Source) (t : String)
        → r.source ≡ s
        → source_path r ≢ ""
        → text_of (lookup (source_path r) d) ≡ some t
        → IsSourced env d s t
    local-IsSourced (content x) t e n h = absurd (ground arith)
    local-IsSourced (from_file (local p)) t e n h =
        let same : source_path r ≡ p = ground arith in ap (λ q. text_of (lookup q d)) (sym same) ∙ h
    local-IsSourced (from_file (gcs b o g)) t e n h = absurd (ground arith)
    local-IsSourced (from_file (remote_uri u x)) t e n h = absurd (ground arith)
    local-IsSourced (from_file no_type) t e n h = absurd (ground arith)
    local-IsSourced no_source t e n h = absurd (ground arith)

    use_local-Prepared :
        (m : ManagedFile) (w : World)
        → w.disk ≡ d
        → m.path ≡ r.path
        → m.state ≡ r.state
        → source_path r ≢ ""
        → source_path r ≢ r.path
        → env.fault (w.tick + 1) ≡ none
        → (use_local env r m w).0.0 ≡ none
        → Prepared env d r (use_local env r m w).0.1 (use_local env r m w).1
    unfolding use_local open_file read
    use_local-Prepared m w disk p s named apart quiet e =
        elim (Option-cases (lookup (source_path r) w.disk)) [
          | inl missing ↦ absurd (ground arith)
          | inr (f, there) ↦
              let m' = record m { source = source_path r; checksum = env.sha256 f.content } in
              let w' = record w { tick = w.tick + 1 + 1 } in
              let eq : use_local env r m w ≡ acquire env r m' w' = ground arith in
              let g : Given m' w' = record {
                path = p;
                state = s;
                remote = λ x. x;
                ready = λ n. record {
                  named = named;
                  apart = λ x. apart (x ∙ p);
                  text = f.content;
                  there = ap text_of there;
                  sum = refl;
                  sourced =
                      local-IsSourced r.source f.content refl named (
                        ap (λ x. text_of (lookup (source_path r) x)) (sym disk) ∙ ap text_of there);
                };
              } in
              rw eq (acquire-Prepared m' w' g (sym (ap (λ x. x.0.0) eq) ∙ e))
        ]

    validate_present-Prepared :
        (m : ManagedFile) (w : World)
        → w.disk ≡ d
        → m.path ≡ r.path
        → m.state ≡ r.state
        → m.source ≡ ""
        → source_path r ≢ r.path
        → env.fault (w.tick + 1) ≡ none
        → (validate_present env r m w).0.0 ≡ none
        → Prepared env d r (validate_present env r m w).0.1 (validate_present env r m w).1
    unfolding validate_present
    validate_present-Prepared m w disk p s fresh apart quiet e =
        elim (Option-cases (parse_permissions r.permissions)) [
          | inl bad ↦ absurd (ground arith)
          | inr (perms, good) ↦
              let m' = record m { permissions = perms } in
              elim (Bool-cases (source_path r == "")) [
                | inl blank ↦
                    let eq : validate_present env r m w ≡ acquire env r m' w = ground arith in
                    let g : Given m' w = record {
                      path = p;
                      state = s;
                      remote = λ x. ground arith;
                      ready = λ n. absurd (n fresh);
                    } in
                    rw eq (acquire-Prepared m' w g (sym (ap (λ x. x.0.0) eq) ∙ e))
                | inr some_path ↦
                    let eq : validate_present env r m w ≡ use_local env r m' w = ground arith in
                    rw eq (
                      use_local-Prepared m' w disk p s (λ x. ground arith) apart quiet
                        (sym (ap (λ x. x.0.0) eq) ∙ e))
              ]
        ]

    pub validate-Prepared :
        (w : World)
        → w.disk ≡ d
        → source_path r ≢ r.path
        → env.fault (w.tick + 1) ≡ none
        → (validate env r new_file w).0.0 ≡ none
        → Prepared env d r (validate env r new_file w).0.1 (validate env r new_file w).1
    unfolding validate
    validate-Prepared w disk apart quiet e = go r.state refl
      where
        go :
            (state : DesiredState)
            → r.state ≡ state
            → Prepared env d r (validate env r new_file w).0.1 (validate env r new_file w).1
        go absent s =
            let m = record new_file { state = absent; path = r.path } in
            let eq : validate env r new_file w ≡ ((none, m), w) = ground arith in
            rw eq (record {
              path = refl;
              state = sym s;
              source = λ n. absurd (n refl);
              remote = λ n. absurd (n refl);
            })
        go present s =
            let m = record new_file { state = present; path = r.path } in
            let eq : validate env r new_file w ≡ validate_present env r m w = ground arith in
            rw eq (
              validate_present-Prepared m w disk refl (sym s) refl apart quiet
                (sym (ap (λ x. x.0.0) eq) ∙ e))
        go contents_match_state s =
            let m = record new_file { state = contents_match_state; path = r.path } in
            let eq : validate env r new_file w ≡ validate_present env r m w = ground arith in
            rw eq (
              validate_present-Prepared m w disk refl (sym s) refl apart quiet
                (sym (ap (λ x. x.0.0) eq) ∙ e))
        go unrecognized s = absurd (ground arith)
