-- ===== src/Policies/Local/Wins.antt =====
-- The policy that was looked up wins over the local config.
use Prim.Native.Char.{code}
use text.Mathlib.TextLemmas.{cons-append, append_cancel_left}
use osconfig.Base.{
  ℕ, String, ◌<>◌, Bool, false, not, ◌&&◌, Option, none, some, List, [], ◌∷◌, ◌++◌, map, ◌≡◌, ◌≢◌,
  refl, ap, ◌∙◌, sym, Bool-cases, inl, inr, arith, ◌==◌, ==_refl, any, select,
}
use osconfig.Policies.Local.{
  NamedItem, PackageRepository, yum, zypper, other, Sourced, EffectiveGuestPolicy, LocalConfig,
  get_id, append_missing, by_name, by_id, or_empty, merge_into, merge_configs,
}

-- An item of the local config, as it stands in a policy.
abbrev pub unsourced : {A : Type 0} → A → Sourced A
unsourced a = record { source = ""; item = a }

-- Is there an item of the name?
abbrev pub names_it : List (Sourced NamedItem) → NamedItem → Bool
names_it vs v = any (λ w. w.item.name == v.name) vs

-- Two repositories of yum, or of zypper, with one id. No other repositories are the same.
abbrev pub same_repository : PackageRepository → PackageRepository → Bool
same_repository (yum a x) (yum b y) = a == b
same_repository (zypper a x) (zypper b y) = a == b
same_repository v w = false

abbrev pub has_repository : List (Sourced PackageRepository) → PackageRepository → Bool
has_repository vs v = any (λ w. same_repository w.item v) vs

append-nil : {A : Type 0} (xs : List A) → xs ++ [] ≡ xs
append-nil [] = refl
append-nil (x ∷ xs) = ap (λ ys. x ∷ ys) (append-nil xs)

append_assoc : {A : Type 0} (xs ys zs : List A) → (xs ++ ys) ++ zs ≡ xs ++ (ys ++ zs)
append_assoc [] ys zs = refl
append_assoc (x ∷ xs) ys zs = ap (λ ws. x ∷ ws) (append_assoc xs ys zs)

-- A loop adds, in order, the items that are not skipped.
append_missing-select :
    {A : Type 0} (skip present : A → Bool) (vs : List A) (out : List (Sourced A))
    → ((v : A) → skip v ≡ present v)
    → append_missing skip vs out ≡ out ++ map unsourced (select (λ v. not (present v)) vs)
unfolding append_missing
append_missing-select skip present [] out same = sym (append-nil out)
append_missing-select {A} skip present (v ∷ vs) out same = elim (Bool-cases (present v)) [
  | inl there ↦ ground (arith, there, same v, append_missing-select skip present vs out same)
  | inr missing ↦
      let more = out ++ (unsourced v ∷ []) in
      let rest = map unsourced (select (λ w. not (present w)) vs) in
      let step : append_missing skip (v ∷ vs) out ≡ append_missing skip vs more =
        ground (arith, missing, same v) in
      let adds : map unsourced (select (λ w. not (present w)) (v ∷ vs)) ≡ unsourced v ∷ rest =
        ground (arith, missing) in
      step
      ∙ append_missing-select skip present vs more same
      ∙ append_assoc out (unsourced v ∷ []) rest
      ∙ ap (λ ws. out ++ ws) (sym adds)
]

by_name-eq-names_it : (vs : List (Sourced NamedItem)) (v : NamedItem) → by_name vs v ≡ names_it vs v
by_name-eq-names_it [] v = refl
by_name-eq-names_it (w ∷ vs) v = ground (arith, by_name-eq-names_it vs v)

-- Texts after one prefix are equal only if they are.
prefixed-eq : (p a b : String) → (p <> a ≡ p <> b → a ≡ b) → ((p <> a) == (p <> b)) ≡ (a == b)
prefixed-eq p a b cancel = elim (Bool-cases (a == b)) [
  | inl same ↦ let eq : a ≡ b = ground (arith, same) in rw eq (ground arith)
  | inr differ ↦ ground (arith, differ, cancel)
]

abbrev first_code : String → ℕ
first_code String.[] = 0
first_code (String.◌∷◌ c s) = code c

yum_initial : (a : String) → first_code ("yum-" <> a) ≡ 121
yum_initial a = ap first_code (cons-append "y" "um-" a)

zypper_initial : (a : String) → first_code ("zypper-" <> a) ≡ 122
zypper_initial a = ap first_code (cons-append "z" "ypper-" a)

-- Texts whose first characters differ are not equal.
initials_differ : (s t : String) → first_code s ≢ first_code t → (s == t) ≡ false
initials_differ s t n = elim (Bool-cases (s == t)) [
  | inl same ↦ let eq : s ≡ t = ground (arith, same) in absurd (n (ap first_code eq))
  | inr differ ↦ differ
]

get_id-eq-same_repository :
    (w v : PackageRepository) → not (get_id v == "") && (get_id w == get_id v) ≡ same_repository w v
get_id-eq-same_repository (yum a x) (yum b y) = ground (
  arith,
  initials_differ ("yum-" <> b) "" (λ e. ground (arith, e, yum_initial b)),
  prefixed-eq "yum-" a b (append_cancel_left "yum-" a b),
)
get_id-eq-same_repository (yum a x) (zypper b y) = ground (
  arith,
  initials_differ ("yum-" <> a) ("zypper-" <> b)
      (λ e. ground (arith, e, yum_initial a, zypper_initial b)),
)
get_id-eq-same_repository (zypper a x) (yum b y) = ground (
  arith,
  initials_differ ("zypper-" <> a) ("yum-" <> b)
      (λ e. ground (arith, e, yum_initial b, zypper_initial a)),
)
get_id-eq-same_repository (zypper a x) (zypper b y) = ground (
  arith,
  initials_differ ("zypper-" <> b) "" (λ e. ground (arith, e, zypper_initial b)),
  prefixed-eq "zypper-" a b (append_cancel_left "zypper-" a b),
)
get_id-eq-same_repository (yum a x) (other y) = ground (arith, ==_refl "")
get_id-eq-same_repository (zypper a x) (other y) = ground (arith, ==_refl "")
get_id-eq-same_repository (other x) (yum b y) =
    ground (arith, initials_differ "" ("yum-" <> b) (λ e. ground (arith, e, yum_initial b)))
get_id-eq-same_repository (other x) (zypper b y) =
    ground (arith, initials_differ "" ("zypper-" <> b) (λ e. ground (arith, e, zypper_initial b)))
get_id-eq-same_repository (other x) (other y) = ground (arith, ==_refl "")

by_id-eq-has_repository :
    (vs : List (Sourced PackageRepository)) (v : PackageRepository)
    → by_id vs v ≡ has_repository vs v
by_id-eq-has_repository [] v = ground arith
by_id-eq-has_repository (w ∷ vs) v =
    ground (arith, by_id-eq-has_repository vs v, get_id-eq-same_repository w.item v)

-- The local config that there is, or an empty one.
abbrev pub or_no_config : Option LocalConfig → LocalConfig
or_no_config (some c) = c
or_no_config none = record { packages = []; package_repositories = []; software_recipes = [] }

-- The merged policy is the one that was looked up, if any, followed by the items of the local config, if
-- any, in their order and without a source, that it does not override: it overrides a package and a
-- recipe by one of the same name, and a repository of yum or of zypper by one of the same kind and id;
-- no other repository is overridden.
pub merge_configs_lem :
    (local : Option LocalConfig) (egp : Option EffectiveGuestPolicy)
    → let c = or_no_config local in
      let p = or_empty egp in
      ((merge_configs local egp).packages
        ≡ p.packages ++ map unsourced (select (λ v. not (names_it p.packages v)) c.packages))
      × ((merge_configs local egp).software_recipes
          ≡ p.software_recipes
            ++ map unsourced (select (λ v. not (names_it p.software_recipes v)) c.software_recipes))
      × ((merge_configs local egp).package_repositories
          ≡ p.package_repositories
            ++ map unsourced (
                select (λ v. not (has_repository p.package_repositories v)) c.package_repositories))
unfolding merge_configs merge_into
merge_configs_lem none egp =
    let p = or_empty egp in
    (
      sym (append-nil p.packages),
      sym (append-nil p.software_recipes),
      sym (append-nil p.package_repositories),
    )
merge_configs_lem (some c) egp =
    let p = or_empty egp in
    (
      append_missing-select (by_name p.packages) (names_it p.packages) c.packages p.packages
          (by_name-eq-names_it p.packages),
      append_missing-select (by_name p.software_recipes) (names_it p.software_recipes)
          c.software_recipes p.software_recipes (by_name-eq-names_it p.software_recipes),
      append_missing-select (by_id p.package_repositories) (has_repository p.package_repositories)
          c.package_repositories p.package_repositories
          (by_id-eq-has_repository p.package_repositories),
    )
