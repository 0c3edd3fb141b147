-- ===== src/RunUpdates.antt =====
-- agentendpoint/patch_linux.go: what a patch task runs on Linux, manager by manager.
pub mod Options
pub mod Laws
mod Tests
use Prim.Native.String.{len, char_at, slice}
use Prim.Native.Char.{code}
use osconfig.Base.{
  ℕ, ◌+◌, ◌-◌, String, ◌<>◌, Bool, true, false, ◌&&◌, Option, none, some, List, [], ◌∷◌, ◌++◌,
  Result, ok, err, panicked, ◌>>=◌, leb, eqb, if◌then◌else◌,
}
use osconfig.Base.Actions.{Action, attempt, raise}
use osconfig.Retry.{Retried, retry_func}
use osconfig.OsPatch.{Exclude, create_regex_exclude, create_string_exclude}
use osconfig.OsPatch.Upgrade.{
  AptUpgradeType, apt_get_dist_upgrade, AptGetUpgradeOption, apt_get_upgrade_type, apt_get_excludes,
  apt_get_exclusive_packages, apt_get_dry_run, YumUpdateOption, yum_update_security,
  yum_update_minimal, yum_update_excludes, yum_exclusive_packages, yum_dry_run,
}
use osconfig.OsPatch.Zypper.{
  ZypperPatchOption, zypper_patch_categories, zypper_patch_severities, zypper_update_with_update,
  zypper_update_with_optional, zypper_update_with_excludes, zypper_update_with_exclusive_patches,
  zypper_update_dryrun,
}

-- `AptSettings`, `YumSettings` and `ZypperSettings` of the patch config. A nil slice is `none`.
pub record AptSettings : Type 0 where
  pub is_dist : Bool
  pub excludes : List String
  pub exclusive_packages : Option (List String)

pub record YumSettings : Type 0 where
  pub security : Bool
  pub minimal : Bool
  pub excludes : List String
  pub exclusive_packages : Option (List String)

pub record ZypperSettings : Type 0 where
  pub categories : List String
  pub severities : List String
  pub with_update : Bool
  pub with_optional : Bool
  pub excludes : List String
  pub exclusive_patches : List String

pub record PatchConfig : Type 0 where
  pub apt : AptSettings
  pub yum : YumSettings
  pub zypper : ZypperSettings
  pub dry_run : Bool

-- A manager's Run function, retried: its options and the attempts made.
pub data ManagerCall : Type 0 where
  apt_call : List AptGetUpgradeOption → ℕ → ManagerCall
  yum_call : List YumUpdateOption → ℕ → ManagerCall
  zypper_call : List ZypperPatchOption → ℕ → ManagerCall

-- The surroundings: the commands that exist, `regexp.Compile`, `rand.Intn` by the attempt, and the
-- variables that hold the three Run functions of ospatch, by their options and the attempt.
pub record Env : Type 0 where
  pub apt_exists : Bool
  pub dpkg_query_exists : Bool
  pub yum_exists : Bool
  pub rpm_query_exists : Bool
  pub zypper_exists : Bool
  pub compile : String → Result String (String → Bool)
  pub intn : ℕ → ℕ → ℕ
  pub try_apt_get_upgrade : List AptGetUpgradeOption → ℕ → Option String
  pub try_yum_update : List YumUpdateOption → ℕ → Option String
  pub try_zypper_patch : List ZypperPatchOption → ℕ → Option String

-- The errors so far, and the calls, the latest first.
pub record Progress : Type 0 where
  pub errs : List String
  pub calls : List ManagerCall

abbrev pub M : Type 0 → Type 0
M A = Action Progress String A

abbrev pub retry_period : ℕ
retry_period = 180

abbrev pub is_slash : String → ℕ → Bool
is_slash s i = eqb (code (char_at s i)) 47

module _ (env : Env) where
  unfoldable pub regex_exclude_from_string : String → Result String Exclude
  regex_exclude_from_string s = do regex ← env.compile s; ok (create_regex_exclude regex)

  -- One turn of the loop of `convertInputToExcludes`.
  unfoldable pub convert_exclude : String → Result String Exclude
  convert_exclude s =
      if leb 2 (len s) && (is_slash s 0 && is_slash s (len s - 1))
      then regex_exclude_from_string (slice s 1 (len s - 1))
      else ok (create_string_exclude s)

  unfoldable pub convert_input_to_excludes : List String → Result String (List Exclude)
  convert_input_to_excludes [] = ok []
  convert_input_to_excludes (s ∷ input) = do
    exclude ← convert_exclude s
    output ← convert_input_to_excludes input
    ok (exclude ∷ output)

  -- `retryutil.RetryFunc` round one Run function: an error is appended to the errors. `none` is the
  -- end of the fuel.
  unfoldable pub retried : (ℕ → ManagerCall) → Option (Retried String) → M (Unit {0})
  retried call none s = (panicked "out of fuel", s)
  retried call (some r) s = (
    ok tt,
    record {
      errs = elim r.outcome [ none ↦ s.errs | some e ↦ s.errs ++ (e ∷ []) ];
      calls = call r.attempts ∷ s.calls;
    },
  )

  -- A manager's part: the excludes are converted, and an error of that ends `runUpdates`.
  unfoldable pub with_excludes : List String → (List Exclude → M (Unit {0})) → M (Unit {0})
  with_excludes input run s = elim (convert_input_to_excludes input) [
    | ok excludes ↦ run excludes s
    | err e ↦ (err e, s)
    | panicked p ↦ (panicked p, s)
  ]

  unfoldable pub apt_opts : PatchConfig → List Exclude → List AptGetUpgradeOption
  apt_opts c excludes =
      (apt_get_dry_run c.dry_run
        ∷ apt_get_excludes excludes
        ∷ apt_get_exclusive_packages c.apt.exclusive_packages
        ∷ [])
      ++ (if c.apt.is_dist then apt_get_upgrade_type apt_get_dist_upgrade ∷ [] else [])

  unfoldable pub run_apt : PatchConfig → M (Unit {0})
  run_apt c s =
      if env.apt_exists && env.dpkg_query_exists
      then with_excludes c.apt.excludes
          (λ excludes.
            retried (apt_call (apt_opts c excludes))
              (retry_func env.intn retry_period (env.try_apt_get_upgrade (apt_opts c excludes))))
          s
      else (ok tt, s)

  unfoldable pub yum_opts : PatchConfig → List Exclude → List YumUpdateOption
  yum_opts c excludes =
      yum_update_security c.yum.security
      ∷ yum_update_minimal c.yum.minimal
      ∷ yum_update_excludes excludes
      ∷ yum_exclusive_packages c.yum.exclusive_packages
      ∷ yum_dry_run c.dry_run
      ∷ []

  unfoldable pub run_yum : PatchConfig → M (Unit {0})
  run_yum c s =
      if env.yum_exists && env.rpm_query_exists
      then with_excludes c.yum.excludes
          (λ excludes.
            retried (yum_call (yum_opts c excludes))
              (retry_func env.intn retry_period (env.try_yum_update (yum_opts c excludes))))
          s
      else (ok tt, s)

  unfoldable pub zypper_patch_opts : PatchConfig → List Exclude → List ZypperPatchOption
  zypper_patch_opts c excludes =
      zypper_patch_categories c.zypper.categories
      ∷ zypper_patch_severities c.zypper.severities
      ∷ zypper_update_with_update c.zypper.with_update
      ∷ zypper_update_with_optional c.zypper.with_optional
      ∷ zypper_update_with_excludes excludes
      ∷ zypper_update_with_exclusive_patches c.zypper.exclusive_patches
      ∷ zypper_update_dryrun c.dry_run
      ∷ []

  unfoldable pub run_zypper : PatchConfig → M (Unit {0})
  run_zypper c s =
      if env.zypper_exists && env.rpm_query_exists
      then with_excludes c.zypper.excludes
          (λ excludes. retried (zypper_call (zypper_patch_opts c excludes)) (
            retry_func env.intn retry_period (env.try_zypper_patch (zypper_patch_opts c excludes))))
          s
      else (ok tt, s)

  -- `strings.Join(errs, ",\n")`, of one error at least.
  abbrev pub join_errs : String → List String → String
  join_errs e [] = e
  join_errs e (f ∷ errs) = (e <> ",\n") <> join_errs f errs

  abbrev pub joined : List String → Result String (Unit {0})
  joined [] = ok tt
  joined (e ∷ errs) = err (join_errs e errs)

  unfoldable pub run_managers : PatchConfig → M (Unit {0})
  run_managers c = attempt (run_apt c) raise (λ _. attempt (run_yum c) raise (λ _. run_zypper c))

  -- `runUpdates`: what it returns, and what it has called.
  unfoldable pub run_updates : PatchConfig → Result String (Unit {0}) × List ManagerCall
  run_updates c =
      let (r, s) = run_managers c (record { errs = []; calls = [] }) in
      (elim r [ ok _ ↦ joined s.errs | err e ↦ err e | panicked p ↦ panicked p ], s.calls)
