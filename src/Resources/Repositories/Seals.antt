-- ===== src/Resources/Repositories/Seals.antt =====
-- A validation of a repository takes the checksums of what it manages.
use osconfig.Resources.Repositories.Contents.{
  AptRepository, goo_get_repo_contents, yum_repo_contents, zypper_repo_contents,
}
use osconfig.Base.{String, Bool, true, false, none, some, ◌≡◌, refl, arith}
use osconfig.Resources.{World, Env}
use osconfig.Resources.Repositories.{
  seal, validate_file, validate_apt, apt, goo, yum, zypper, no_repository, Repository, Setup,
  GpgFile, ManagedRepository, new_repository, gpg_file, validate,
}

module _ (env : Env) where
  -- The checksums of a managed repository are those of the contents.
  pub record Sealed (m : ManagedRepository) : Type 0 where
    pub repo_sum : m.repo_checksum ≡ env.sha256 m.repo_file_contents
    pub key_sum :
        (g : GpgFile) (contents : String)
        → gpg_file m ≡ some (g, contents)
        → g.checksum ≡ env.sha256 contents

  seal-Sealed :
      (format : String → String) (m : ManagedRepository)
      → ((g : GpgFile) (c : String) → gpg_file m ≡ some (g, c) → g.checksum ≡ env.sha256 c)
      → Sealed (seal env format m)
  unfolding seal
  seal-Sealed format m key = record { repo_sum = refl; key_sum = key }

  validate_file-Sealed :
      (there : Bool) (contents : String) (format : String → String) (w : World)
      → (validate_file env there contents format new_repository w).0.0 ≡ none
      → Sealed (validate_file env there contents format new_repository w).0.1
  unfolding validate_file
  validate_file-Sealed true contents format w e =
      seal-Sealed format (record new_repository { repo_file_contents = contents })
        (λ g c h. absurd (cc))
  validate_file-Sealed false contents format w e = absurd (cc)

  validate_apt-Sealed :
      (setup : Setup) (repo : AptRepository) (key : String) (w : World)
      → (validate_apt env setup repo key new_repository w).0.0 ≡ none
      → Sealed (validate_apt env setup repo key new_repository w).0.1
  unfolding validate_apt
  validate_apt-Sealed setup repo key w e = record {
    repo_sum = unfold seal in ground arith;
    key_sum = λ g c h. unfold seal in ground arith;
  }

  pub validate-Sealed :
      (setup : Setup) (r : Repository) (w : World)
      → (validate env setup r new_repository w).0.0 ≡ none
      → Sealed (validate env setup r new_repository w).0.1
  unfolding validate
  validate-Sealed setup (apt repo key) w e = validate_apt-Sealed setup repo key w e
  validate-Sealed setup (goo repo) w e =
      validate_file-Sealed setup.goo_get_exists (goo_get_repo_contents repo)
        setup.goo_get_repo_format w e
  validate-Sealed setup (yum repo) w e =
      validate_file-Sealed setup.yum_exists (yum_repo_contents repo) setup.yum_repo_format w e
  validate-Sealed setup (zypper repo) w e =
      validate_file-Sealed setup.zypper_exists (zypper_repo_contents repo) setup.zypper_repo_format
        w e
  validate-Sealed setup no_repository w e = absurd (cc)
