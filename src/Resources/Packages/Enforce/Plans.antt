-- ===== src/Resources/Packages/Enforce/Plans.antt =====
-- The plans of the enforcements of packages.
use osconfig.Base.Actions.{attempt, raise, resume, pure}
use osconfig.Base.{
  if◌then◌else◌, String, Bool, Option, none, some, List, [], ◌∷◌, ◌≡◌, ◌≢◌, refl, ap, sym, ◌∙◌,
  Result, ok, err, panicked, arith,
}
use osconfig.Resources.{Env}
use osconfig.Resources.Packages.{
  install_apt, dpkg_install, install_msi, DesiredState, unspecified, installed, removed,
  PackageConfig, Managed, unset, apt_package, goo_get_package, yum_package, zypper_package,
  deb_package, rpm_package, msi_package, CacheName, deb_installed, rpm_installed, Act, Managers,
  State, M,
}
use osconfig.Resources.Packages.Validate.{download, with_managed}
use osconfig.Resources.Download.{RemoteFile}
use osconfig.Resources.Packages.Enforce.{
  one_act, rpm_action, source_of, pull_deps, properties_of, plan_by, pulled, plan_of, Plan,
}
use osconfig.Resources.Packages.Enforce.Watched.{Watch, watch}

module _ (env : Env) (managers : Managers) where
  -- The plan for a package that can be acted on: its cache is to be reset.
  pub record Planned (m : Managed) (end : Result String Plan × State) : Type 0 where
    pub calm : (p : String) → end.0 ≢ panicked p
    pub cache :
        (k : Watch) (plan : Plan)
        → watch m ≡ some k
        → end.0 ≡ ok plan
        → plan.installed_cache ≡ some k.cache
    pub action : (plan : Plan) → end.0 ≡ ok plan → plan.action ≢ none
    pub watched : watch end.1.managed ≡ watch m

  plan_by-Planned :
      (m : Managed) (s : State) (k : Watch) (acts acts' : List Act)
      → watch s.managed ≡ watch m
      → watch m ≡ some k
      → k.state ≢ unspecified
      → Planned m (ok (plan_by k.cache acts acts' k.state), s)
  plan_by-Planned m s k acts acts' same w known = record {
    calm = λ p e. cc;
    cache = λ j plan h e. cc;
    action = λ plan e. go k.state plan known (cc);
    watched = same;
  }
    where
      go :
          (state : DesiredState) (plan : Plan)
          → state ≢ unspecified
          → (plan_by k.cache acts acts' state).action ≡ plan.action
          → plan.action ≢ none
      go unspecified plan n e = absurd (n refl)
      go installed plan n e = λ x. cc
      go removed plan n e = λ x. cc

  -- What a download or a pull leaves.
  pub record Pulled {A : Type 0} (s : State) (end : Result String A × State) : Type 0 where
    pub calm : (p : String) → end.0 ≢ panicked p
    pub watched : watch end.1.managed ≡ watch s.managed

  download-Pulled :
      (name : String) (source : RemoteFile) (s : State)
      → Pulled s (download env managers name source s)
  unfolding download
  download-Pulled name source s = record {
    calm = λ p e. ground arith;
    watched = ap watch (ground arith);
  }

  pulled-Pulled :
      (name path : String) (source : RemoteFile) (managed : String → Managed) (s : State)
      → ((p : String) → watch (managed p) ≡ watch s.managed)
      → Pulled s (pulled env managers name source path managed s)
  unfolding pulled
  pulled-Pulled name path source managed s same =
      let d = download-Pulled name source s in
      record {
        calm = λ p e. ground (arith, d.calm p);
        watched = ground (arith, go (download env managers name source s) d.watched);
      }
    where
      go :
          (r : Result String String × State)
          → watch r.1.managed ≡ watch s.managed
          → watch
              (resume raise
                (λ a. attempt (with_managed (managed a)) raise (λ _. pure a))
                r.0
                r.1).1.managed
            ≡ watch s.managed
      go (ok a, v) h = same a
      go (err e, v) h = h
      go (panicked p, v) h = h

  -- A plan with one action for a file that is pulled.
  file-Planned :
      (m : Managed) (s : State) (pull : M String) (next : String → M Plan)
      → Pulled s (pull s)
      → watch s.managed ≡ watch m
      → ((path : String) (v : State) → watch v.managed ≡ watch m → Planned m (next path v))
      → Planned m (attempt pull raise next s)
  file-Planned m s pull next d same step = go (pull s) d.calm (d.watched ∙ same)
    where
      go :
          (r : Result String String × State)
          → ((p : String) → r.0 ≢ panicked p)
          → watch r.1.managed ≡ watch m
          → Planned m (resume raise next r.0 r.1)
      go (ok path, v) c w = step path v w
      go (err e, v) c w = record {
        calm = λ p x. cc;
        cache = λ k plan h x. absurd (cc);
        action = λ plan x. absurd (cc);
        watched = w;
      }
      go (panicked p, v) c w = absurd (c p refl)

  rpm_action-Planned :
      (m : Managed) (deps : Bool) (path : String) (v : State) (c : Option CacheName)
      → watch v.managed ≡ watch m
      → ((k : Watch) → watch m ≡ some k → c ≡ some k.cache)
      → Planned m (
          attempt
            (rpm_action env managers deps path)
            raise
            (λ acts. pure (record { installed_cache = c; action = some acts }))
            v)
  unfolding rpm_action
  rpm_action-Planned m deps path v c w h = record {
    calm = λ p e. ground arith;
    cache = λ k plan x e. ground (arith, h k x);
    action = λ plan e f. ground arith;
    watched = ground (arith, w);
  }

  ok-Planned :
      (m : Managed) (v : State) (plan : Plan)
      → watch v.managed ≡ watch m
      → ((k : Watch) → watch m ≡ some k → plan.installed_cache ≡ some k.cache)
      → {acts : List Act} → plan.action ≡ some acts
      → Planned m (ok plan, v)
  ok-Planned m v plan w h some_acts = record {
    calm = λ p e. cc;
    cache = λ k plan' x e. ground (arith, h k x);
    action = λ plan' e f. ground arith;
    watched = w;
  }

  pub plan_of-Planned :
      (r : PackageConfig) (m : Managed) (s : State)
      → s.managed ≡ m
      → m ≢ unset
      → ((k : Watch) → watch m ≡ some k → k.state ≢ unspecified)
      → Planned m (plan_of env managers r m s)
  unfolding plan_of
  plan_of-Planned r unset s h n known = absurd (n refl)
  plan_of-Planned r (apt_package name state) s h n known =
      plan_by-Planned _ s _ _ _ (ap watch h) refl (known _ refl)
  plan_of-Planned r (goo_get_package name state) s h n known =
      plan_by-Planned _ s _ _ _ (ap watch h) refl (known _ refl)
  plan_of-Planned r (yum_package name state) s h n known =
      plan_by-Planned _ s _ _ _ (ap watch h) refl (known _ refl)
  plan_of-Planned r (zypper_package name state) s h n known =
      plan_by-Planned _ s _ _ _ (ap watch h) refl (known _ refl)
  plan_of-Planned r (deb_package name path) s h n known =
      file-Planned _ s (pulled env managers "pkg.deb" (source_of r) path (deb_package name)) _
        (pulled-Pulled "pkg.deb" path (source_of r) (deb_package name) s (λ p. sym (ap watch h)))
        (ap watch h)
        (λ path' v w.
          ok-Planned (deb_package name path) v
            (one_act (some deb_installed)
              (if pull_deps r then install_apt (path' ∷ []) else dpkg_install path'))
            w (λ k x. cc) refl)
  plan_of-Planned r (rpm_package name path) s h n known =
      file-Planned _ s (pulled env managers "pkg.rpm" (source_of r) path (rpm_package name)) _
        (pulled-Pulled "pkg.rpm" path (source_of r) (rpm_package name) s (λ p. sym (ap watch h)))
        (ap watch h)
        (λ path v w. rpm_action-Planned _ (pull_deps r) path v (some rpm_installed) w (λ k e. cc))
  plan_of-Planned r (msi_package name product_code path) s h n known =
      file-Planned _ s
        (pulled env managers "pkg.msi" (source_of r) path (msi_package name product_code)) _
        (pulled-Pulled "pkg.msi" path (source_of r) (msi_package name product_code) s
          (λ p. sym (ap watch h)))
        (ap watch h)
        (λ path' v w.
          ok-Planned (msi_package name product_code path) v
            (one_act none (install_msi path' (properties_of r))) w (λ k x. absurd (cc)) refl)
