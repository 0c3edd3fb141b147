-- ===== src/Resources/Packages/Cache.antt =====
-- The caches of config/package_resource.go.
use osconfig.Base.{
  ℕ, ◌+◌, String, Option, none, some, [], ◌∷◌, map, ok, panicked, ltb, eqb, if◌then◌else◌,
}
use osconfig.Base.Actions.{pure, raise, attempt}
use osconfig.Base.Dict.{Dict, lookup, insert}
use osconfig.Resources.Download.{RemoteFile}
use osconfig.Resources.Packages.{
  Info, PackageInfo, Managed, unset, apt_package, goo_get_package, yum_package, zypper_package,
  deb_package, rpm_package, msi_package, CacheName, apt_installed, deb_installed, goo_installed,
  yum_installed, zypper_installed, rpm_installed, PackageCache, Database, deb_packages,
  goo_get_packages, rpm_packages, Managers, State, M, ask,
}

-- 168 hours and 3 minutes.
abbrev pub package_info_cache_timeout : ℕ
package_info_cache_timeout = 604800000000000

abbrev pub installed_cache_timeout : ℕ
installed_cache_timeout = 180000000000

abbrev pub nil_map : String
nil_map = "assignment to entry in nil map"

abbrev pub rank : CacheName → ℕ
rank apt_installed = 0
rank deb_installed = 1
rank goo_installed = 2
rank yum_installed = 3
rank zypper_installed = 4
rank rpm_installed = 5

abbrev pub put_cache : CacheName → PackageCache → State → State
put_cache name c s = record s {
  installed = λ n. if eqb (rank n) (rank name) then c else s.installed n;
}

-- Which cache and which list a managed package has.
abbrev pub cache_of : Managed → Option (CacheName × Database)
cache_of unset = none
cache_of (apt_package name state) = some (apt_installed, deb_packages)
cache_of (goo_get_package name state) = some (goo_installed, goo_get_packages)
cache_of (yum_package name state) = some (yum_installed, rpm_packages)
cache_of (zypper_package name state) = some (zypper_installed, rpm_packages)
cache_of (deb_package name path) = some (deb_installed, deb_packages)
cache_of (rpm_package name path) = some (rpm_installed, rpm_packages)
cache_of (msi_package name product_code path) = none

module _ (managers : Managers) where
  abbrev pub now : M ℕ
  now = ask (λ n. (managers.clock n, none))

  -- `loadPackageInfoCache`: a file that cannot be read or decoded is an empty cache.
  unfoldable pub load_package_info_cache : M (Unit {0})
  load_package_info_cache s = elim s.info_store [
    | some store ↦ pure tt s
    | none ↦ (
      ok tt,
      record s {
        info_store = elim (managers.stored_cache s.world.tick) [
          | none ↦ some []
          | some cache ↦ cache
        ];
        world = record s.world { tick = s.world.tick + 1 };
      },
    )
  ]

  -- `getPackageInfoFromCache`
  unfoldable pub get_package_info_from_cache : RemoteFile → M (Option Info)
  unfolding load_package_info_cache
  get_package_info_from_cache file = attempt load_package_info_cache raise (λ _ s.
      elim (managers.cache_key file).1 [
        | some e ↦ pure none s
        | none ↦ elim s.info_store [
          | none ↦ pure none s
          | some store ↦ elim (lookup (managers.cache_key file).0 store) [
            | none ↦ pure none s
            | some found ↦ pure (some found.info) s
          ]
        ]
      ])

  -- The entries that were looked up within the timeout.
  unfoldable pub recent : ℕ → Dict PackageInfo → Dict PackageInfo
  recent time [] = []
  recent time ((key, found) ∷ rest) =
      let others = recent time rest in
      if ltb (found.last_lookup + package_info_cache_timeout) time
      then others
      else (key, found) ∷ others

  -- `updatePackageInfoCache`. The loop reads the clock for each entry, here it does so once.
  unfoldable pub update_package_info_cache : Info → RemoteFile → M (Unit {0})
  unfolding load_package_info_cache recent
  update_package_info_cache info file = attempt load_package_info_cache raise (λ _.
      attempt now raise (λ time s.
        let kept : Option (Dict PackageInfo) = elim s.info_store [
          | none ↦ none
          | some store ↦ some (recent time store)
        ] in
        let s' = record s { info_store = kept } in
        elim (managers.cache_key file).1 [
          | some e ↦ pure tt s'
          | none ↦
              attempt now raise
                (λ time' v. elim v.info_store [
                  | none ↦ (panicked nil_map, v)
                  | some store ↦ (
                    ok tt,
                    record v {
                      info_store = some (
                          insert (managers.cache_key file).0
                            (record { info = info; last_lookup = time' }) store);
                    },
                  )
                ])
                s'
        ]))

  -- `savePackageInfoCache`
  unfoldable pub save_package_info_cache : State → Option String × State
  save_package_info_cache s = elim s.info_store [
    | none ↦ (none, s)
    | some store ↦ (
      managers.store_cache s.world.tick store,
      record s { info_store = none; world = record s.world { tick = s.world.tick + 1 } },
    )
  ]

  -- The listing and the new cache of `populateInstalledCache`.
  unfoldable pub refresh : CacheName → Database → M (Unit {0})
  refresh name db = attempt (ask (managers.listing db)) raise (λ pis. attempt now raise (λ time s. (
    ok tt,
    put_cache name (record { cache = some (map (λ (p : Info). p.name) pis); refreshed = time }) s,
  )))

  -- A cache of the last three minutes stays. The clock is read only where there is one.
  unfoldable pub populate : CacheName → Database → M (Unit {0})
  unfolding refresh
  populate name db s = elim (s.installed name).cache [
    | none ↦ refresh name db s
    | some names ↦
        attempt now raise
          (λ time v.
            let rest = refresh name db v in
            if ltb time ((s.installed name).refreshed + installed_cache_timeout)
            then pure tt v
            else rest)
          s
  ]

  -- `populateInstalledCache`
  unfoldable pub populate_installed_cache : Managed → M (Unit {0})
  unfolding populate
  populate_installed_cache unset = raise "unknown or unpopulated ManagedPackage package type"
  populate_installed_cache (msi_package name product_code path) = pure tt
  populate_installed_cache (apt_package name state) = populate apt_installed deb_packages
  populate_installed_cache (deb_package name path) = populate deb_installed deb_packages
  populate_installed_cache (goo_get_package name state) = populate goo_installed goo_get_packages
  populate_installed_cache (yum_package name state) = populate yum_installed rpm_packages
  populate_installed_cache (zypper_package name state) = populate zypper_installed rpm_packages
  populate_installed_cache (rpm_package name path) = populate rpm_installed rpm_packages
