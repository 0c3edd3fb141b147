-- ===== src/AgentConfig/Precedence.antt =====
-- Which of the settings decides whether a feature is on.
use osconfig.Base.{String, false, ◌≡◌, refl, ◌∙◌, ap, Result, ok, err, panicked, ◌>>=◌, arith}
use osconfig.AgentConfig.{Config, Metadata, Flags}
use osconfig.AgentConfig.Create.{
  initial, set_names, set_features, set_project_interval, set_instance_interval, set_rest,
  create_config_from_metadata,
}
use osconfig.AgentConfig.Features.{Feature, enabled, says, or_else, enabled-set_features}
use osconfig.AgentConfig.Keeps.{
  set_project_interval-Keeps, set_instance_interval-Keeps, set_rest-Keeps, enabled-set_names,
}

created :
    (r : Result String Config) (g : Config → Config) {d : Config}
    → (r >>= λ c. ok (g c)) ≡ ok d
    → (c : Config) × (r ≡ ok c) × (d ≡ g c)
created (ok c) g e = (c, refl, ground arith)
created (err m) g e = absurd (ground arith)
created (panicked m) g e = absurd (ground arith)

-- If there is a config, then a feature is on in it as the attributes of the instance say, or, where they
-- say nothing of it, as those of the project do, and it is off where neither does. In each of the two, a
-- disabled feature is off whatever else there is; then the key of the whole agent decides, then the
-- features before their release, and then, for the inventory, its own key.
pub create_config_from_metadata-enabled :
    (flags : Flags) (old : Config) (md : Metadata) {c : Config} (f : Feature)
    → create_config_from_metadata flags old md ≡ ok c
    → enabled f c
      ≡ or_else (says f md.of_instance.attributes) (or_else (says f md.of_project.attributes) false)
unfolding create_config_from_metadata
create_config_from_metadata-enabled flags old md f e =
    let p = md.of_project.attributes in
    let i = md.of_instance.attributes in
    let c1 = set_names md (initial old) in
    let c2 = set_features p c1 in
    let c3 = set_features i c2 in
    let (d, interval_ok, last) =
      created (set_instance_interval i (set_project_interval p c3)) (set_rest flags md) e in
    ap (enabled f) last
    ∙ set_rest-Keeps flags md f d
    ∙ set_instance_interval-Keeps i f (set_project_interval p c3) interval_ok
    ∙ set_project_interval-Keeps p f c3
    ∙ enabled-set_features f i c2
    ∙ ap (or_else (says f i)) (enabled-set_features f p c1)
    ∙ ap (λ b. or_else (says f i) (or_else (says f p) b)) (enabled-set_names f md old)
