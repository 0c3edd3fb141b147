-- ===== src/RunUpdates/Tests.antt =====
-- A patch run with apt, and the theorem at it.
use osconfig.Base.{true, false, none, [], ◌∷◌, err}
use osconfig.RunUpdates.{PatchConfig, Env}

abbrev debian : Env
debian = record {
  apt_exists = true;
  dpkg_query_exists = true;
  yum_exists = false;
  rpm_query_exists = false;
  zypper_exists = false;
  compile = λ s. err "no regular expressions";
  intn = λ n i. 0;
  try_apt_get_upgrade = λ opts n. none;
  try_yum_update = λ opts n. none;
  try_zypper_patch = λ opts n. none;
}

abbrev config : PatchConfig
config = record {
  apt = record { is_dist = true; excludes = "vim" ∷ []; exclusive_packages = none };
  yum = record { security = false; minimal = false; excludes = []; exclusive_packages = none };
  zypper = record {
    categories = [];
    severities = [];
    with_update = false;
    with_optional = false;
    excludes = [];
    exclusive_patches = [];
  };
  dry_run = true;
}
