-- ===== src/Resources/Packages/Enforce/Fresh.antt =====
-- That an enforcement of a package does not panic after a check, and that the check behind it asks the
-- package manager again.
use mathlib.Core.Path.{subst}
use osconfig.Base.Actions.{attempt, raise, resume, pure}
use osconfig.Base.{
  ◌+◌, String, Bool, true, Option, none, some, List, [], ◌∷◌, ◌≡◌, ◌≢◌, refl, ap, sym, ◌∙◌, Result,
  ok, err, panicked, arith, Option-cases, inl, inr,
}
use osconfig.Resources.{Env}
use osconfig.Resources.Packages.{
  PackageConfig, Managed, unset, CacheName, PackageCache, Act, Managers, State,
}
use osconfig.Resources.Packages.Enforce.{
  check_state, enforce_of, act_all, reset, carry_out, enforce_state, plan_of, Plan,
}
use osconfig.Resources.Packages.Enforce.Watched.{
  Watch, watch, Known, asked, check_fresh, check-Known,
}
use osconfig.Resources.Packages.Enforce.Plans.{Planned, plan_of-Planned}

module _ (env : Env) (managers : Managers) where
  -- The calls of managers change neither the caches nor the managed package, and none panics.
  record Acted (s : State) (end : Result String (Unit {0}) × State) : Type 0 where
    installed : end.1.installed ≡ s.installed
    managed : end.1.managed ≡ s.managed
    calm : (p : String) → end.0 ≢ panicked p

  act_all-Acted : (acts : List Act) (s : State) → Acted s (act_all env managers acts s)
  unfolding act_all
  act_all-Acted [] s = record { installed = refl; managed = refl; calm = λ p e. cc }
  act_all-Acted (a ∷ acts) s =
      let v = record s { acts = a ∷ s.acts; world = record s.world { tick = s.world.tick + 1 } } in
      let later = act_all-Acted acts v in
      record {
        installed = ground (arith, later.installed);
        managed = ground (arith, later.managed);
        calm = λ p e. ground (arith, later.calm p);
      }

  -- What an enforcement leaves: no panic, and after a success the check that follows asks the manager.
  pub record Renewed (m : Managed) (end : Result String Bool × State) : Type 0 where
    pub calm : (p : String) → end.0 ≢ panicked p
    pub asks :
        (k : Watch)
        → watch m ≡ some k
        → end.0 ≡ ok true
        → (check_state env managers end.1).0
          ≡ asked k (managers.listing k.database end.1.world.tick)

  carry_on :
      (m : Managed) (plan : Plan) (s : State) {acts : List Act}
      → m ≢ unset
      → plan.action ≡ some acts
      → carry_out env managers m plan s
        ≡ attempt
            (act_all env managers acts)
            (λ _. raise "error acting on the package")
            (λ _. pure true)
            (reset env managers plan.installed_cache s)
  unfolding carry_out
  carry_on unset plan s n e = absurd (n refl)
  carry_on _ plan s n e = ground (arith, e)

  reset_empties :
      (c : CacheName) (s : State) → ((reset env managers (some c) s).installed c).cache ≡ none
  unfolding reset
  reset_empties c s = ground arith

  managed-reset : (c : Option CacheName) (s : State) → (reset env managers c s).managed ≡ s.managed
  unfolding reset
  managed-reset none s = refl
  managed-reset (some c) s = refl

  acted-Renewed :
      (m : Managed) (r : Result String (Unit {0}) × State)
      → ((p : String) → r.0 ≢ panicked p)
      → watch r.1.managed ≡ watch m
      → ((k : Watch) → watch m ≡ some k → (r.1.installed k.cache).cache ≡ none)
      → Renewed m (
          resume {S = State} {E = String}
            (λ _. raise "error acting on the package")
            (λ (_ : Unit {0}). pure true)
            r.0
            r.1)
  acted-Renewed m (ok u, v) c w f = record {
    calm = λ p e. cc;
    asks = λ k h e. check_fresh env managers v.managed v k (w ∙ h) (f k h);
  }
  acted-Renewed m (err t, v) c w f = record { calm = λ p e. cc; asks = λ k h e. absurd (cc) }
  acted-Renewed m (panicked t, v) c w f = absurd (c t refl)

  carry_out-Renewed :
      (m : Managed) (plan : Plan) (s : State) {acts : List Act}
      → m ≢ unset
      → plan.action ≡ some acts
      → ((k : Watch) → watch m ≡ some k → plan.installed_cache ≡ some k.cache)
      → watch s.managed ≡ watch m
      → Renewed m (carry_out env managers m plan s)
  carry_out-Renewed m plan s {acts} n action cache same =
      let v = reset env managers plan.installed_cache s in
      let a = act_all-Acted acts v in
      rw (carry_on m plan s n action) (
        acted-Renewed m (act_all env managers acts v) a.calm
          (ap watch (a.managed ∙ managed-reset plan.installed_cache s) ∙ same)
          (λ k h.
            ap (λ (f : CacheName → PackageCache). (f k.cache).cache) a.installed
            ∙ ap (λ c. ((reset env managers c s).installed k.cache).cache) (cache k h)
            ∙ reset_empties k.cache s))

  -- Behind a check that returned no error, an enforcement does not panic, and if it succeeds, then the
  -- check that follows it lists the installed packages again, and says of this list whether the package
  -- is as it is to be.
  pub enforce_state-Renewed :
      (r : PackageConfig) (s v : State) {b : Bool}
      → (check_state env managers s).0 ≡ ok b
      → v.managed ≡ s.managed
      → Renewed v.managed (enforce_state env managers r v)
  unfolding enforce_of
  enforce_state-Renewed r s v checked same =
      let m = v.managed in
      let (n, known) = subst Known (sym same) (check-Known env managers s.managed s checked) in
      go n (plan_of env managers r m v) (plan_of-Planned env managers r m v refl n known)
    where
      go :
          v.managed ≢ unset
          → (x : Result String Plan × State) → Planned env managers v.managed x
          → Renewed v.managed (resume raise (carry_out env managers v.managed) x.0 x.1)
      go n (ok plan, u) h = elim (Option-cases plan.action) [
        | inl e ↦ absurd (h.action plan refl e)
        | inr (acts, e) ↦
            carry_out-Renewed v.managed plan u n e (λ k x. h.cache k plan x refl) h.watched
      ]
      go n (err t, u) h = record { calm = λ p e. cc; asks = λ k x e. absurd (cc) }
      go n (panicked t, u) h = absurd (h.calm t refl)
