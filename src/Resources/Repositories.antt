-- ===== src/Resources/Repositories.antt =====
-- config/repository_resource.go: the resource that manages the file of a package repository.
pub mod Contents
pub mod Seals
pub mod Matches
mod Tests
use Prim.Native.String.{slice}
use osconfig.Base.{
  ℕ, ◌+◌, String, ◌<>◌, Bool, true, false, not, Option, none, some, List, [], ◌∷◌, ltb, ◌==◌,
  if◌then◌else◌,
}
use osconfig.Base.Int.{ℤ, pos, negsuc}
use osconfig.Resources.{World, Stream, Env, Call, Get, on_error, on_get, give}
use osconfig.Resources.Atomic.{atomic_write}
use osconfig.Resources.Disk.{call, truncate, copy}
use osconfig.Resources.Download.{contents_match}
use osconfig.Resources.Repositories.Contents.{
  AptRepository, GooRepository, YumRepository, apt_repo_contents, goo_get_repo_contents,
  yum_repo_contents, zypper_repo_contents,
}

abbrev pub apt_gpg_dir : String
apt_gpg_dir = "/etc/apt/trusted.gpg.d"

-- The repository of the policy; apt has the address of its key, which may be empty.
pub data Repository : Type 0 where
  apt : AptRepository → String → Repository
  goo : GooRepository → Repository
  yum zypper : YumRepository → Repository
  no_repository : Repository

-- The package managers that there are, the formats of the names of files, and the keys: the network and
-- the packages of OpenPGP, where an entity is the text that it is written as.
pub record Setup : Type 0 where
  pub apt_exists : Bool
  pub goo_get_exists : Bool
  pub yum_exists : Bool
  pub zypper_exists : Bool
  pub apt_repo_format : String → String
  pub goo_get_repo_format : String → String
  pub yum_repo_format : String → String
  pub zypper_repo_format : String → String
  pub http_get : ℕ → String → (ℤ × Stream) × Option String
  pub is_armored : String → Bool
  pub read_armored_key_ring : String → List String × Option String
  pub read_key_ring : String → List String × Option String
  pub serialize : String → String × Option String

-- `AptRepository`, by the fields of its key; nil contents are `none`.
pub record GpgFile : Type 0 where
  pub path : String
  pub checksum : String
  pub contents : Option String

-- `ManagedRepository`
pub record ManagedRepository : Type 0 where
  pub apt : Option GpgFile
  pub repo_file_path : String
  pub repo_checksum : String
  pub repo_file_contents : String

abbrev pub new_repository : ManagedRepository
new_repository = record {
  apt = none;
  repo_file_path = "";
  repo_checksum = "";
  repo_file_contents = "";
}

abbrev pub new_gpg_file : GpgFile
new_gpg_file = record { path = ""; checksum = ""; contents = none }

-- Is a length over the bound of one mebibyte? A length that is not known is -1.
abbrev pub too_large : ℤ → Bool
too_large (pos n) = ltb 1048576 n
too_large (negsuc n) = false

module _ (setup : Setup) where
  -- `serializeGPGKeyEntity`, which gives nil for no entities.
  unfoldable pub serialize_gpg_key_entity : List String → String × Option String
  serialize_gpg_key_entity [] = ("", none)
  serialize_gpg_key_entity (entity ∷ entities) =
      let (rest, e) = serialize_gpg_key_entity entities in
      elim (setup.serialize entity).1 [
        | some t ↦ ("", some ("error serializing gpg key: " <> t))
        | none ↦ elim e [
          | some t ↦ ("", some t)
          | none ↦ ((setup.serialize entity).0 <> rest, none)
        ]
      ]

  unfoldable pub fetch_gpg_key : String → Get (List String)
  fetch_gpg_key key w =
      let ((length, body), e) = setup.http_get w.tick key in
      let w' = record w { tick = w.tick + 1 } in
      elim e [
        | some t ↦ give [] (some t) w'
        | none ↦
            if too_large length then give [] (some "key size too large") w' else elim body.broken [
              | some t ↦ give [] (some ("can not read response body for key: " <> t)) w'
              | none ↦
                  if setup.is_armored body.text
                  then (setup.read_armored_key_ring body.text, w')
                  else (setup.read_key_ring body.text, w')
            ]
      ]

abbrev pub Method : Type 0 → Type 0
Method A = World → (A × ManagedRepository) × World

abbrev pub done : {A : Type 0} → A → ManagedRepository → Method A
done a m w = ((a, m), w)

-- The key file, where there is one to manage.
abbrev pub gpg_file : ManagedRepository → Option (GpgFile × String)
gpg_file m = elim m.apt [
  | none ↦ none
  | some g ↦ elim g.contents [ none ↦ none | some contents ↦ some (g, contents) ]
]

module _ (env : Env) where
  -- `ioutil.WriteFile`
  unfoldable pub write_file : String → String → ℕ → Call
  write_file path text perms =
      on_error (truncate env path perms) (λ e w. (some e, w))
        (on_error (copy env path (record { text = text; broken = none }))
          (λ e w. (some e, (call env w).1)) (call env))

  -- The end of `validate`, with the format of the file's name.
  unfoldable pub seal : (String → String) → ManagedRepository → ManagedRepository
  seal format m =
      let sum = env.sha256 m.repo_file_contents in
      record m { repo_checksum = sum; repo_file_path = format (slice sum 0 10) }

  -- What a key makes of an apt repository.
  abbrev pub with_key : String → GpgFile
  with_key contents =
      let sum = env.sha256 contents in
      record {
        path = env.join apt_gpg_dir ("osconfig_added_" <> (sum <> ".gpg"));
        checksum = sum;
        contents = if contents == "" then none else some contents;
      }

  unfoldable pub validate_apt :
      Setup → AptRepository → String → ManagedRepository → Method (Option String)
  unfolding serialize_gpg_key_entity fetch_gpg_key seal
  validate_apt setup repo gpg_key m =
      if not setup.apt_exists
      then done (some "cannot manage Apt repository because apt-get does not exist on the system") m
      else let m' = record m {
        apt = some new_gpg_file;
        repo_file_contents = apt_repo_contents repo;
      } in
        if gpg_key == ""
        then done none (seal setup.apt_repo_format m')
        else on_get (fetch_gpg_key setup gpg_key)
            (λ _ e. done (some ("error fetching apt gpg key: " <> e)) m')
            (λ entities. elim (serialize_gpg_key_entity setup entities).1 [
              | some e ↦ done (some ("error fetching apt gpg key: " <> e)) m'
              | none ↦ done none (
                  seal setup.apt_repo_format (record m' {
                    apt = some (with_key (serialize_gpg_key_entity setup entities).0);
                  }))
            ])

  -- The other managers.
  unfoldable pub validate_file :
      Bool → String → (String → String) → ManagedRepository → Method (Option String)
  unfolding seal
  validate_file there contents format m =
      if not there
      then done
          (some "cannot manage the repository because its manager does not exist on the system") m
      else done none (seal format (record m { repo_file_contents = contents }))

  unfoldable pub validate : Setup → Repository → ManagedRepository → Method (Option String)
  unfolding validate_apt validate_file
  validate setup (apt repo gpg_key) = validate_apt setup repo gpg_key
  validate setup (goo repo) =
      validate_file setup.goo_get_exists (goo_get_repo_contents repo) setup.goo_get_repo_format
  validate setup (yum repo) =
      validate_file setup.yum_exists (yum_repo_contents repo) setup.yum_repo_format
  validate setup (zypper repo) =
      validate_file setup.zypper_exists (zypper_repo_contents repo) setup.zypper_repo_format
  validate setup no_repository =
      done (some "Repository field not set or references unknown repository type")

  unfoldable pub check_state : ManagedRepository → World → (Bool × Option String) × World
  check_state m w = elim (gpg_file m) [
    | none ↦ contents_match env m.repo_file_path m.repo_checksum w
    | some (g, contents) ↦
        let ((match, e), w') = contents_match env g.path g.checksum w in
        elim e [
          | some t ↦ ((false, some t), w')
          | none ↦
              let rest = contents_match env m.repo_file_path m.repo_checksum w' in
              if not match then ((false, none), w') else rest
        ]
  ]

  -- `enforceState` from the directory of the repository's file on.
  unfoldable pub enforce_repo : ManagedRepository → World → (Bool × Option String) × World
  enforce_repo m =
      on_error (call env) (λ e w. ((false, some e), w))
        (on_error (atomic_write env m.repo_file_path m.repo_file_contents 420)
          (λ e w. ((false, some e), w)) (λ w. ((true, none), w)))

  unfoldable pub enforce_state : ManagedRepository → World → (Bool × Option String) × World
  unfolding write_file enforce_repo
  enforce_state m = elim (gpg_file m) [
    | none ↦ enforce_repo m
    | some (g, contents) ↦
        on_error (write_file g.path contents 420) (λ e w. ((false, some e), w)) (enforce_repo m)
  ]
