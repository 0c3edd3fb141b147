-- ===== src/AgentConfig/Tests.antt =====
-- The agent is enabled for the project, and two features are disabled for the instance.
use osconfig.Base.{true, false, none, some, [], ◌≡◌, refl, ◌⊎◌, ok, panicked}
use osconfig.Base.Int.{pos}
use osconfig.AgentConfig.{Config, Attributes, Metadata, Flags}
use osconfig.AgentConfig.Words.{split_at, trim_space, set_feature, features_loop, replace_all}
use osconfig.AgentConfig.Create.{
  prod_endpoint, nil_pointer, initial, set_names, set_features, set_project_interval,
  set_instance_interval, set_rest, create_config_from_metadata,
}
use osconfig.AgentConfig.Panics.{HasOldInterval, create_config_from_metadata-HasOldInterval}
use osconfig.AgentConfig.Features.{os_inventory, enabled, says, or_else}
use osconfig.AgentConfig.Precedence.{create_config_from_metadata-enabled}

abbrev no_attributes : Attributes
no_attributes = record {
  poll_interval_old = none;
  poll_interval = none;
  inventory_enabled_old = "";
  inventory_enabled = "";
  pre_release_features_old = "";
  pre_release_features = "";
  debug_enabled_old = "";
  log_level = "";
  osconfig_endpoint_old = "";
  osconfig_endpoint = "";
  osconfig_enabled = "";
  disabled_features = "";
  enable_guest_attributes = "";
  trace_get_inventory = "";
  scalibr_linux_enabled = "";
  extended_inventory_enabled = "";
  extended_inventory_extractors_allowed = "";
}

abbrev md : Attributes → Metadata
md a = record {
  of_instance = record {
    attributes = a;
    id = none;
    zone = "projects/1/zones/us-west1-b";
    name = "";
  };
  of_project = record {
    attributes = record no_attributes { osconfig_enabled = "true" };
    project_id = "p";
    numeric_project_id = pos 1;
  };
  universe_domain = "";
}

abbrev flags : Flags
flags = record { endpoint = prod_endpoint; debug = false }

abbrev old : Config
old = record {
  apt_repo_file_path = "";
  instance_name = "";
  instance_zone = "";
  project_id = "";
  svc_endpoint = "";
  googet_repo_file_path = "";
  zypper_repo_file_path = "";
  yum_repo_file_path = "";
  instance_id = "";
  universe_domain = "";
  numeric_project_id = pos 0;
  osconfig_poll_interval = pos 0;
  debug_enabled = false;
  task_notification_enabled = false;
  guest_policies_enabled = false;
  os_inventory_enabled = false;
  scalibr_linux_enabled = false;
  guest_attributes_enabled = false;
  trace_get_inventory = false;
  extended_inventory_enabled = false;
  extended_inventory_extractors_allowed = [];
}

abbrev disabled : Attributes
disabled = record no_attributes { disabled_features = " OSInventory ,tasks" }

abbrev c : Config
c = set_rest flags (md disabled) (
    set_features disabled
      (set_features (md disabled).of_project.attributes (set_names (md disabled) (initial old))))

creates : create_config_from_metadata flags old (md disabled) ≡ ok c
unfolding create_config_from_metadata set_instance_interval set_project_interval
creates = refl

endpoint_zone :
    replace_all prod_endpoint "{zone}" "us-west1-b" ≡ "us-west1-b-osconfig.googleapis.com.:443"
unfolding replace_all
endpoint_zone = refl

words :
    features_loop
      (split_at 44 " OSInventory ,tasks")
      false
      (record old { os_inventory_enabled = true; task_notification_enabled = true })
    ≡ old
unfolding features_loop split_at set_feature trim_space
words = refl

create_config_from_metadata-enabled_example :
    enabled os_inventory c
    ≡ or_else
        (says os_inventory disabled)
        (or_else (says os_inventory (md disabled).of_project.attributes) false)
create_config_from_metadata-enabled_example =
    create_config_from_metadata-enabled flags old (md disabled) os_inventory creates

says_off : says os_inventory disabled ≡ some false
unfolding split_at trim_space
says_off = refl

-- The old key of the polling interval for the instance.
abbrev polled : Metadata
polled = md (record no_attributes {
  poll_interval_old = some (record { text = "5"; int64 = some (pos 5) });
})

create_config_from_metadata-HasOldInterval_example :
    (HasOldInterval polled × (create_config_from_metadata flags old polled ≡ panicked nil_pointer))
    ⊎ ((¬ (HasOldInterval polled))
        × ((c : Config) × (create_config_from_metadata flags old polled ≡ ok c)))
create_config_from_metadata-HasOldInterval_example =
    create_config_from_metadata-HasOldInterval flags old polled

panics : create_config_from_metadata flags old polled ≡ panicked nil_pointer
unfolding create_config_from_metadata set_instance_interval
panics = refl
