-- ===== src/AgentConfig.antt =====
-- agentconfig/agentconfig.go: the settings of the agent, and the metadata that they are made from.
pub mod Words
pub mod Create
pub mod Panics
pub mod Features
pub mod Keeps
pub mod Precedence
mod Tests
use osconfig.Base.{String, Bool, Option, List}
use osconfig.Base.Int.{ℤ}

-- `config`
pub record Config : Type 0 where
  pub apt_repo_file_path : String
  pub instance_name : String
  pub instance_zone : String
  pub project_id : String
  pub svc_endpoint : String
  pub googet_repo_file_path : String
  pub zypper_repo_file_path : String
  pub yum_repo_file_path : String
  pub instance_id : String
  pub universe_domain : String
  pub numeric_project_id : ℤ
  pub osconfig_poll_interval : ℤ
  pub debug_enabled : Bool
  pub task_notification_enabled : Bool
  pub guest_policies_enabled : Bool
  pub os_inventory_enabled : Bool
  pub scalibr_linux_enabled : Bool
  pub guest_attributes_enabled : Bool
  pub trace_get_inventory : Bool
  pub extended_inventory_enabled : Bool
  pub extended_inventory_extractors_allowed : List String

-- `json.Number`, with what `Int64` gives for it: nothing is an error.
pub record Number : Type 0 where
  pub text : String
  pub int64 : Option ℤ

-- `attributesJSON`; a pointer that may be nil is an option.
pub record Attributes : Type 0 where
  pub poll_interval_old : Option Number
  pub poll_interval : Option Number
  pub inventory_enabled_old : String
  pub inventory_enabled : String
  pub pre_release_features_old : String
  pub pre_release_features : String
  pub debug_enabled_old : String
  pub log_level : String
  pub osconfig_endpoint_old : String
  pub osconfig_endpoint : String
  pub osconfig_enabled : String
  pub disabled_features : String
  pub enable_guest_attributes : String
  pub trace_get_inventory : String
  pub scalibr_linux_enabled : String
  pub extended_inventory_enabled : String
  pub extended_inventory_extractors_allowed : String

pub record Instance : Type 0 where
  pub attributes : Attributes
  pub id : Option Number
  pub zone : String
  pub name : String

pub record Project : Type 0 where
  pub attributes : Attributes
  pub project_id : String
  pub numeric_project_id : ℤ

-- `metadataJSON`
pub record Metadata : Type 0 where
  pub of_instance : Instance
  pub of_project : Project
  pub universe_domain : String

-- The flags of the command line that are read.
pub record Flags : Type 0 where
  pub endpoint : String
  pub debug : Bool
