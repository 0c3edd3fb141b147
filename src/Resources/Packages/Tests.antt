-- ===== src/Resources/Packages/Tests.antt =====
-- Runs of a package resource, and the theorem about them.
use osconfig.Base.{
  ltb, String, true, false, none, [], ◌∷◌, ◌≡◌, refl, ok, if◌then◌else◌, String-discrete,
}
use osconfig.Resources.Tests.{machine}
use osconfig.Resources.Packages.{
  installed, PackageConfig, apt, Info, apt_package, deb_package, Managed, Managers, State,
}
use osconfig.Resources.Packages.Cache.{populate_installed_cache, populate, refresh}
use osconfig.Resources.Packages.Enforce.{
  judge_state, check_managed, check_of, check_state, plan_of, act_all, reset, carry_out, enforce_of,
  enforce_state, pulled,
}
use osconfig.Resources.Packages.Enforce.Fresh.{Renewed, enforce_state-Renewed}

abbrev version_1 : String → Info
version_1 name = record { name = name; version = "1" }

-- The package tree is installed from the call 3 on.
abbrev managers : Managers
managers = record {
  apt_exists = true;
  dpkg_exists = true;
  goo_get_exists = false;
  msi_exists = false;
  yum_exists = false;
  zypper_exists = false;
  rpm_exists = false;
  clock = λ n. n;
  listing = λ db n.
      (if ltb n 3 then version_1 "bash" ∷ [] else version_1 "tree" ∷ version_1 "bash" ∷ [], none);
  act = λ n a. none;
  deb_info = λ n path. (version_1 "tree", none);
  rpm_info = λ n path. (version_1 "tree", none);
  msi_info = λ n path. (version_1 "tree", none);
  msi_installed = λ n code. (false, none);
  cache_key = λ file. ("key", none);
  stored_cache = λ n. none;
  store_cache = λ n cache. none;
}

abbrev started : Managed → State
started m = record {
  managed = m;
  temp_dir = "";
  installed = λ name. record { cache = none; refreshed = 0 };
  info_store = none;
  acts = [];
  world = record { disk = []; tick = 0 };
}

abbrev tree : PackageConfig
tree = record { system_package = apt "tree"; desired_state = installed }

abbrev before : State
before = started (apt_package "tree" installed)

checked_example : (check_state machine managers before).0 ≡ ok false
unfolding check_of populate_installed_cache populate refresh check_managed judge_state
    String-discrete
checked_example = refl

enforce_state-Renewed_example :
    Renewed machine managers
      (apt_package "tree" installed)
      (enforce_state machine managers tree (check_state machine managers before).1)
unfolding check_of populate_installed_cache populate refresh check_managed judge_state
    String-discrete
enforce_state-Renewed_example =
    enforce_state-Renewed machine managers tree before (check_state machine managers before).1
      checked_example refl

-- The caches of apt and of Deb files are apart although both list the Debian packages: what a Deb file
-- has installed, a check of an apt package does not find before the three minutes are over.
abbrev deb_after : State
deb_after =
    (enforce_state machine managers tree (record (check_state machine managers before).1 {
      managed = deb_package "tree" "/tree.deb";
    })).1

stale : (check_of machine managers (apt_package "tree" installed) deb_after).0 ≡ ok false
unfolding enforce_of plan_of pulled act_all carry_out reset check_of populate_installed_cache
    populate refresh check_managed judge_state String-discrete
stale = refl
