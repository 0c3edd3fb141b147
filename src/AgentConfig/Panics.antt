-- ===== src/AgentConfig/Panics.antt =====
-- Where createConfigFromMetadata panics.
use osconfig.Base.{none, some, ◌≡◌, ◌⊎◌, inl, inr, ok, panicked, arith, Option-cases}
use osconfig.AgentConfig.{Config, Number, Metadata, Flags}
use osconfig.AgentConfig.Create.{
  initial, set_names, set_features, set_project_interval, interval, nil_pointer,
  set_instance_interval, set_rest, create_config_from_metadata,
}

-- The instance has the old key of the interval only.
abbrev pub HasOldInterval : Metadata → Type 0
HasOldInterval md =
    (md.of_instance.attributes.poll_interval ≡ none)
    × ((n : Number) × (md.of_instance.attributes.poll_interval_old ≡ some n))

-- The agent panics exactly where the attributes of the instance have the old key of the polling interval
-- and not the new one; for all other metadata there is a config.
pub create_config_from_metadata-HasOldInterval :
    (flags : Flags) (old : Config) (md : Metadata)
    → (HasOldInterval md × (create_config_from_metadata flags old md ≡ panicked nil_pointer))
      ⊎ ((¬ (HasOldInterval md))
          × ((c : Config) × (create_config_from_metadata flags old md ≡ ok c)))
unfolding create_config_from_metadata set_instance_interval
create_config_from_metadata-HasOldInterval flags old md =
    let c = set_project_interval md.of_project.attributes (
      set_features md.of_instance.attributes
        (set_features md.of_project.attributes (set_names md (initial old)))) in
    elim (Option-cases md.of_instance.attributes.poll_interval) [
      | inr (n, new) ↦ inr (
        (λ (gone, _). absurd (ground (arith, gone, new))),
        (set_rest flags md (interval n c), ground (arith, new)),
      )
      | inl gone ↦ elim (Option-cases md.of_instance.attributes.poll_interval_old) [
        | inl none_old ↦ inr (
          (λ (_, (n, there)). absurd (ground (arith, none_old, there))),
          (set_rest flags md c, ground (arith, gone, none_old)),
        )
        | inr (n, there) ↦ inl ((gone, (n, there)), ground (arith, gone, there))
      ]
    ]
