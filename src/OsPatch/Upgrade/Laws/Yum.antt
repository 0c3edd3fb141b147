-- ===== src/OsPatch/Upgrade/Laws/Yum.antt =====
-- ospatch/yum_update.go against its description, option by option.
use osconfig.Base.{String, ◌<>◌, Bool, Option, List, [], ◌∷◌, ◌==◌, if◌then◌else◌}
use osconfig.OsPatch.{Exclude, PkgInfo}
use osconfig.OsPatch.Upgrade.{
  YumUpdateOption, yum_update_security, yum_update_minimal, yum_update_excludes,
  yum_exclusive_packages, yum_dry_run,
}

-- An option by its constructor, of the functions that make options for yum.
pub data YumChoice : Type 0 where
  yum_security yum_minimal yum_dry : Bool → YumChoice
  yum_without : List Exclude → YumChoice
  yum_only : Option (List String) → YumChoice

abbrev pub yum_option : YumChoice → YumUpdateOption
yum_option (yum_security b) = yum_update_security b
yum_option (yum_minimal b) = yum_update_minimal b
yum_option (yum_dry b) = yum_dry_run b
yum_option (yum_without es) = yum_update_excludes es
yum_option (yum_only names) = yum_exclusive_packages names

-- The value of the last option of a kind, or the one that holds without it.
abbrev pub last_security : Bool → List YumChoice → Bool
last_security d [] = d
last_security d (yum_security b ∷ cs) = last_security b cs
last_security d (_ ∷ cs) = last_security d cs

abbrev pub last_minimal : Bool → List YumChoice → Bool
last_minimal d [] = d
last_minimal d (yum_minimal b ∷ cs) = last_minimal b cs
last_minimal d (_ ∷ cs) = last_minimal d cs

abbrev pub last_dry : Bool → List YumChoice → Bool
last_dry d [] = d
last_dry d (yum_dry b ∷ cs) = last_dry b cs
last_dry d (_ ∷ cs) = last_dry d cs

abbrev pub last_without : List Exclude → List YumChoice → List Exclude
last_without d [] = d
last_without d (yum_without es ∷ cs) = last_without es cs
last_without d (_ ∷ cs) = last_without d cs

abbrev pub last_only : Option (List String) → List YumChoice → Option (List String)
last_only d [] = d
last_only d (yum_only names ∷ cs) = last_only names cs
last_only d (_ ∷ cs) = last_only d cs

-- `name.arch`, and the name alone where the architecture is not known.
abbrev pub dotted : PkgInfo → String
dotted pkg = if pkg.raw_arch == "" then pkg.name else (pkg.name <> ".") <> pkg.raw_arch
