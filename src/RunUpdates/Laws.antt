-- ===== src/RunUpdates/Laws.antt =====
-- What agentendpoint/patch_linux.go calls, and when it reports success.
use osconfig.Base.{◌≡◌, none, [], All}
use osconfig.RunUpdates.{
  PatchConfig, ManagerCall, apt_call, yum_call, zypper_call, Env, Progress, M,
}
use osconfig.RunUpdates.Options.{Obeys}

module _ (env : Env) (c : PatchConfig) where
  -- The last attempt of a call succeeded.
  abbrev pub Succeeded : ManagerCall → Type 0
  Succeeded (apt_call opts n) = env.try_apt_get_upgrade opts n ≡ none
  Succeeded (yum_call opts n) = env.try_yum_update opts n ≡ none
  Succeeded (zypper_call opts n) = env.try_zypper_patch opts n ≡ none

  -- All calls obey the config, and with no error so far all of them have succeeded.
  record Good (s : Progress) : Type 0 where
    obeys : All (Obeys env c) s.calls
    sound : s.errs ≡ [] → All Succeeded s.calls

  -- A part of `runUpdates`, whatever it returns.
  abbrev Stays : M (Unit {0}) → Type 0
  Stays m = (s : Progress) → Good s → Good (m s).1
