-- ===== src/RunUpdates/Options.antt =====
-- The options that agentendpoint/patch_linux.go makes of the config.
use mathlib.Core.Path.{subst}
use Prim.Native.String.{len, slice}
use osconfig.Base.{
  sym, ◌>>=◌, Bool, true, false, none, some, if◌then◌else◌, leb, ◌-◌, ℕ, ◌≤◌, ◌≡◌, refl, String,
  ◌&&◌, List, [], ◌∷◌, All, Result, ok, >>=-eq-ok, if-split, Bool-cases, inl, inr,
}
use osconfig.OsPatch.{Exclude, create_regex_exclude, create_string_exclude}
use osconfig.OsPatch.Filter.{IsMade, create_regex_exclude-IsMade, create_string_exclude-IsMade}
use osconfig.OsPatch.Upgrade.{
  apt_get_upgrade, apt_get_dist_upgrade, apt_get_opts, apt_get_upgrade_type, apt_get_excludes,
  apt_get_exclusive_packages, apt_get_dry_run, yum_update_opts, yum_update_security,
  yum_update_minimal, yum_update_excludes, yum_exclusive_packages, yum_dry_run,
}
use osconfig.OsPatch.Zypper.{
  zypper_opts, zypper_patch_categories, zypper_patch_severities, zypper_update_with_update,
  zypper_update_with_optional, zypper_update_with_excludes, zypper_update_with_exclusive_patches,
  zypper_update_dryrun,
}
use osconfig.RunUpdates.{
  is_slash, PatchConfig, ManagerCall, apt_call, yum_call, zypper_call, Env,
  regex_exclude_from_string, convert_exclude, convert_input_to_excludes, apt_opts, yum_opts,
  zypper_patch_opts,
}

-- Is the text a regular expression between slashes?
abbrev pub is_pattern : String → Bool
is_pattern s = leb 2 (len s) && (is_slash s 0 && is_slash s (len s - 1))

-- What an exclude stands for that is made of an input: a name of exactly that text, or the names that the
-- regular expression between its slashes matches.
abbrev pub StandsFor : Env → String → Exclude → Type 0
StandsFor env s e =
    if is_pattern s
    then ((regex : String → Bool) × (env.compile (slice s 1 (len s - 1)) ≡ ok regex)
        × (e ≡ record { is_regexp = true; regex = some regex; strict_string = none }))
    else e ≡ record { is_regexp = false; regex = none; strict_string = some s }

-- The excludes are those of the config, one for each and in its order.
abbrev pub StandFor : Env → List String → List Exclude → Type 0
StandFor env [] [] = Unit
StandFor env (s ∷ input) (e ∷ es) = StandsFor env s e × StandFor env input es
StandFor env [] (e ∷ es) = ⊥
StandFor env (s ∷ input) [] = ⊥

-- The options of a call, as the manager reads them, are those of the task's config, with excludes that
-- stand for the config's and are well made, and it is tried eight times at most.
abbrev pub Obeys : Env → PatchConfig → ManagerCall → Type 0
Obeys env c (apt_call opts n) =
    All IsMade (apt_get_opts opts).excludes
    × StandFor env c.apt.excludes (apt_get_opts opts).excludes
    × ((apt_get_opts opts).dryrun ≡ c.dry_run)
    × ((apt_get_opts opts).exclusive_packages ≡ c.apt.exclusive_packages)
    × ((apt_get_opts opts).upgrade_type
        ≡ (if c.apt.is_dist then apt_get_dist_upgrade else apt_get_upgrade))
    × (n ≤ 8)
Obeys env c (yum_call opts n) =
    All IsMade (yum_update_opts opts).excludes
    × StandFor env c.yum.excludes (yum_update_opts opts).excludes
    × ((yum_update_opts opts).dryrun ≡ c.dry_run)
    × ((yum_update_opts opts).exclusive_packages ≡ c.yum.exclusive_packages)
    × ((yum_update_opts opts).security ≡ c.yum.security)
    × ((yum_update_opts opts).minimal ≡ c.yum.minimal)
    × (n ≤ 8)
Obeys env c (zypper_call opts n) =
    All IsMade (zypper_opts opts).excludes
    × StandFor env c.zypper.excludes (zypper_opts opts).excludes
    × ((zypper_opts opts).dryrun ≡ c.dry_run)
    × ((zypper_opts opts).exclusive_patches ≡ c.zypper.exclusive_patches)
    × ((zypper_opts opts).categories ≡ c.zypper.categories)
    × ((zypper_opts opts).severities ≡ c.zypper.severities)
    × ((zypper_opts opts).with_update ≡ c.zypper.with_update)
    × ((zypper_opts opts).with_optional ≡ c.zypper.with_optional)
    × (n ≤ 8)

ok-injective : {A : Type 0} {a b : A} → ◌≡◌ {A = Result String A} (ok a) (ok b) → a ≡ b
ok-injective q = cc

module _ (env : Env) (c : PatchConfig) where
  convert_exclude-IsMade : (s : String) (e : Exclude) → convert_exclude env s ≡ ok e → IsMade e
  unfolding convert_exclude regex_exclude_from_string
  convert_exclude-IsMade s e =
      if-split (λ (r : Result String Exclude). r ≡ ok e → IsMade e)
        (leb 2 (len s) && (is_slash s 0 && is_slash s (len s - 1)))
        (λ _ h.
          let (regex, compiled, same) =
            >>=-eq-ok (env.compile (slice s 1 (len s - 1))) (λ r. ok (create_regex_exclude r)) h in
          subst IsMade (ok-injective same) (create_regex_exclude-IsMade regex))
        (λ _ h. subst IsMade (ok-injective h) (create_string_exclude-IsMade s))

  pub convert_input_to_excludes-IsMade :
      (input : List String) (es : List Exclude)
      → convert_input_to_excludes env input ≡ ok es
      → All IsMade es
  unfolding convert_input_to_excludes
  convert_input_to_excludes-IsMade [] es h = subst (All IsMade) (ok-injective h) tt
  convert_input_to_excludes-IsMade (s ∷ input) es h =
      let (e, first, more) = >>=-eq-ok (convert_exclude env s) _ h in
      let (rest, converted, same) = >>=-eq-ok (convert_input_to_excludes env input) _ more in
      subst (All IsMade) (ok-injective same)
        (convert_exclude-IsMade s e first, convert_input_to_excludes-IsMade input rest converted)

  convert_exclude-StandsFor :
      (s : String) (e : Exclude) → convert_exclude env s ≡ ok e → StandsFor env s e
  unfolding convert_exclude regex_exclude_from_string create_regex_exclude create_string_exclude
  convert_exclude-StandsFor s e h = elim (Bool-cases (is_pattern s)) [
    | inl pattern ↦
        let compiling : (do
          regex ← env.compile (slice s 1 (len s - 1))
          ok (create_regex_exclude regex))
            ≡ ok e =
          rw pattern at h in
        let (regex, compiled, same) =
          >>=-eq-ok (env.compile (slice s 1 (len s - 1))) (λ r. ok (create_regex_exclude r))
            compiling in
        rw pattern (regex, compiled, sym (ok-injective same))
    | inr plain ↦
        let made : ◌≡◌ {A = Result String Exclude} (ok (create_string_exclude s)) (ok e) =
          rw plain at h in
        rw plain (sym (ok-injective made))
  ]

  pub convert_input_to_excludes-StandFor :
      (input : List String) (es : List Exclude)
      → convert_input_to_excludes env input ≡ ok es
      → StandFor env input es
  unfolding convert_input_to_excludes
  convert_input_to_excludes-StandFor [] es h = subst (StandFor env []) (ok-injective h) tt
  convert_input_to_excludes-StandFor (s ∷ input) es h =
      let (e, first, more) = >>=-eq-ok (convert_exclude env s) _ h in
      let (rest, converted, same) = >>=-eq-ok (convert_input_to_excludes env input) _ more in
      subst (StandFor env (s ∷ input)) (ok-injective same) (
        convert_exclude-StandsFor s e first,
        convert_input_to_excludes-StandFor input rest converted,
      )

  pub apt_opts-Obeys :
      (excludes : List Exclude) (n : ℕ)
      → All IsMade excludes
      → StandFor env c.apt.excludes excludes
      → n ≤ 8
      → Obeys env c (apt_call (apt_opts env c excludes) n)
  unfolding apt_opts apt_get_opts apt_get_upgrade_type apt_get_excludes apt_get_exclusive_packages
      apt_get_dry_run
  apt_opts-Obeys excludes n made stand le = elim (Bool-cases c.apt.is_dist) [
    | inl dist ↦ rw (dist, apt_opts) (made, stand, refl, refl, refl, le)
    | inr plain ↦ rw (plain, apt_opts) (made, stand, refl, refl, refl, le)
  ]

  pub yum_opts-Obeys :
      (excludes : List Exclude) (n : ℕ)
      → All IsMade excludes
      → StandFor env c.yum.excludes excludes
      → n ≤ 8
      → Obeys env c (yum_call (yum_opts env c excludes) n)
  unfolding yum_opts yum_update_opts yum_update_security yum_update_minimal yum_update_excludes
      yum_exclusive_packages yum_dry_run
  yum_opts-Obeys excludes n made stand le = (made, stand, refl, refl, refl, refl, le)

  pub zypper_patch_opts-Obeys :
      (excludes : List Exclude) (n : ℕ)
      → All IsMade excludes
      → StandFor env c.zypper.excludes excludes
      → n ≤ 8
      → Obeys env c (zypper_call (zypper_patch_opts env c excludes) n)
  unfolding zypper_patch_opts zypper_opts zypper_patch_categories zypper_patch_severities
      zypper_update_with_update zypper_update_with_optional zypper_update_with_excludes
      zypper_update_with_exclusive_patches zypper_update_dryrun
  zypper_patch_opts-Obeys excludes n made stand le =
      (made, stand, refl, refl, refl, refl, refl, refl, le)
