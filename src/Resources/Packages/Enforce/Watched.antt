-- ===== src/Resources/Packages/Enforce/Watched.antt =====
-- What a managed package is about, and what a check of it asks.
use osconfig.Base.Actions.{attempt, raise, resume}
use osconfig.Base.{
  ◌+◌, String, Bool, not, Option, none, some, List, map, ◌≡◌, ◌≢◌, refl, Result, ok, err, panicked,
  contains, arith,
}
use osconfig.Resources.{Env}
use osconfig.Resources.Packages.{
  DesiredState, unspecified, installed, removed, Info, Managed, unset, apt_package, goo_get_package,
  yum_package, zypper_package, deb_package, rpm_package, msi_package, CacheName, apt_installed,
  deb_installed, goo_installed, yum_installed, zypper_installed, rpm_installed, Database,
  deb_packages, goo_get_packages, rpm_packages, Managers, State, M,
}
use osconfig.Resources.Packages.Cache.{put_cache, populate, refresh, populate_installed_cache}
use osconfig.Resources.Packages.Enforce.{judge_state, check_managed, check_of}

-- What a managed package is about: its name, the state that it is to have, and where it is looked up.
pub record Watch : Type 0 where
  pub cache : CacheName
  pub database : Database
  pub name : String
  pub state : DesiredState

abbrev pub watch_in : CacheName → Database → String → DesiredState → Option Watch
watch_in c d n s = some (record { cache = c; database = d; name = n; state = s })

abbrev pub watch : Managed → Option Watch
watch unset = none
watch (apt_package name state) = watch_in apt_installed deb_packages name state
watch (deb_package name path) = watch_in deb_installed deb_packages name installed
watch (goo_get_package name state) = watch_in goo_installed goo_get_packages name state
watch (msi_package name product_code path) = none
watch (yum_package name state) = watch_in yum_installed rpm_packages name state
watch (zypper_package name state) = watch_in zypper_installed rpm_packages name state
watch (rpm_package name path) = watch_in rpm_installed rpm_packages name installed

-- Is the package as it is to be, in a list of installed packages?
abbrev pub as_wanted : DesiredState → Bool → Result String Bool
as_wanted installed there = ok there
as_wanted removed there = ok (not there)
as_wanted unspecified there = err "DesiredState field not set or references state"

-- The answer of a check that asks the manager.
abbrev pub asked : Watch → List Info × Option String → Result String Bool
asked k (pis, none) = as_wanted k.state (contains (map (λ (p : Info). p.name) pis) k.name)
asked k (pis, some e) = err e

-- A package that can be acted on.
abbrev pub Known : Managed → Type 0
Known m = (m ≢ unset) × ((k : Watch) → watch m ≡ some k → k.state ≢ unspecified)

module _ (env : Env) (managers : Managers) where
  judge_state_lem :
      (state : DesiredState) (b : Bool) (s : State) → (judge_state state b s).0 ≡ as_wanted state b
  unfolding judge_state
  judge_state_lem installed b s = refl
  judge_state_lem removed b s = refl
  judge_state_lem unspecified b s = refl

  -- The state that a listing leaves.
  listed : CacheName → List Info → State → State
  listed name pis s =
      put_cache name
        (record {
          cache = some (map (λ (p : Info). p.name) pis);
          refreshed = managers.clock (s.world.tick + 1);
        })
        (record s { world = record s.world { tick = s.world.tick + 1 + 1 } })

  populate_fresh :
      (name : CacheName) (db : Database) (s : State)
      → (s.installed name).cache ≡ none
      → populate managers name db s
        ≡ (elim (managers.listing db s.world.tick).1 as (λ _. Result String Unit × State) [
          | some e ↦ (err e, record s { world = record s.world { tick = s.world.tick + 1 } })
          | none ↦ (ok tt, listed name (managers.listing db s.world.tick).0 s)
        ])
  unfolding populate refresh listed
  populate_fresh name db s empty = ground arith

  -- A check whose cache is empty lists the packages.
  pub check_fresh :
      (m : Managed) (s : State) (k : Watch)
      → watch m ≡ some k
      → (s.installed k.cache).cache ≡ none
      → (check_of env managers m s).0 ≡ asked k (managers.listing k.database s.world.tick)
  unfolding check_of populate_installed_cache check_managed judge_state listed
  check_fresh unset s k h empty = absurd (cc)
  check_fresh (msi_package name product_code path) s k h empty = absurd (cc)
  check_fresh (apt_package name state) s k h empty =
      ground (arith, h, populate_fresh apt_installed deb_packages s)
  check_fresh (deb_package name path) s k h empty =
      ground (arith, h, populate_fresh deb_installed deb_packages s)
  check_fresh (goo_get_package name state) s k h empty =
      ground (arith, h, populate_fresh goo_installed goo_get_packages s)
  check_fresh (yum_package name state) s k h empty =
      ground (arith, h, populate_fresh yum_installed rpm_packages s)
  check_fresh (zypper_package name state) s k h empty =
      ground (arith, h, populate_fresh zypper_installed rpm_packages s)
  check_fresh (rpm_package name path) s k h empty =
      ground (arith, h, populate_fresh rpm_installed rpm_packages s)

  never_ok :
      (before : M (Unit {0})) (check : M Bool) (s : State) {t : String} {b : Bool}
      → ((v : State) → (check v).0 ≡ err t)
      → (attempt before raise (λ _. check) s).0 ≢ ok b
  never_ok before check s fails = go (before s)
    where
      go :
          {b : Bool} (r : Result String (Unit {0}) × State)
          → (resume {S = State} {E = String} raise (λ (_ : Unit {0}). check) r.0 r.1).0 ≢ ok b
      go (ok u, v) e = cc (fails v)
      go (err t, v) e = cc
      go (panicked t, v) e = cc

  -- A check that returned no error was of a package, with a state that is known.
  pub check-Known :
      (m : Managed) (s : State) {b : Bool} → (check_of env managers m s).0 ≡ ok b → Known m
  unfolding check_of populate_installed_cache check_managed judge_state
  check-Known unset s e = absurd (cc)
  check-Known (deb_package name path) s e = (λ x. cc, λ k h u. absurd (cc))
  check-Known (rpm_package name path) s e = (λ x. cc, λ k h u. absurd (cc))
  check-Known (msi_package name product_code path) s e = (λ x. cc, λ k h. absurd (cc))
  check-Known (apt_package name installed) s e = (λ x. cc, λ k h u. absurd (cc))
  check-Known (apt_package name removed) s e = (λ x. cc, λ k h u. absurd (cc))
  check-Known (apt_package name unspecified) s e = absurd (
      never_ok (populate managers apt_installed deb_packages)
        (check_managed env managers (apt_package name unspecified)) s (λ v. refl) e)
  check-Known (goo_get_package name installed) s e = (λ x. cc, λ k h u. absurd (cc))
  check-Known (goo_get_package name removed) s e = (λ x. cc, λ k h u. absurd (cc))
  check-Known (goo_get_package name unspecified) s e = absurd (
      never_ok (populate managers goo_installed goo_get_packages)
        (check_managed env managers (goo_get_package name unspecified)) s (λ v. refl) e)
  check-Known (yum_package name installed) s e = (λ x. cc, λ k h u. absurd (cc))
  check-Known (yum_package name removed) s e = (λ x. cc, λ k h u. absurd (cc))
  check-Known (yum_package name unspecified) s e = absurd (
      never_ok (populate managers yum_installed rpm_packages)
        (check_managed env managers (yum_package name unspecified)) s (λ v. refl) e)
  check-Known (zypper_package name installed) s e = (λ x. cc, λ k h u. absurd (cc))
  check-Known (zypper_package name removed) s e = (λ x. cc, λ k h u. absurd (cc))
  check-Known (zypper_package name unspecified) s e = absurd (
      never_ok (populate managers zypper_installed rpm_packages)
        (check_managed env managers (zypper_package name unspecified)) s (λ v. refl) e)
