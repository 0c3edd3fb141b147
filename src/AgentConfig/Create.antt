-- ===== src/AgentConfig/Create.antt =====
-- agentconfig/agentconfig.go: createConfigFromMetadata and the functions that it calls.
use osconfig.Base.{
  zero, String, Bool, true, false, not, none, some, [], Result, ok, panicked, ◌==◌, if◌then◌else◌,
  ◌>>=◌,
}
use osconfig.Base.Int.{ℤ, pos}
use osconfig.AgentConfig.{Config, Number, Attributes, Metadata, Flags}
use osconfig.AgentConfig.Words.{
  split_at, parse_bool, parse_slice, parse_features, lowers_to, last_part, replace_all,
}

abbrev pub prod_endpoint : String
prod_endpoint = "{zone}-osconfig.googleapis.com.:443"

abbrev pub universe_domain_default : String
universe_domain_default = "googleapis.com"

-- `if s != "" { … }`
abbrev pub given : String → (Config → Config) → Config → Config
given s f c = if s == "" then c else f c

-- The literal at the beginning, with what is known from the config before.
unfoldable pub initial : Config → Config
initial old = record {
  apt_repo_file_path = "/etc/apt/sources.list.d/google_osconfig_managed.list";
  instance_name = old.instance_name;
  instance_zone = old.instance_zone;
  project_id = old.project_id;
  svc_endpoint = prod_endpoint;
  googet_repo_file_path = "C:/ProgramData/GooGet/repos/google_osconfig_managed.repo";
  zypper_repo_file_path = "/etc/zypp/repos.d/google_osconfig_managed.repo";
  yum_repo_file_path = "/etc/yum.repos.d/google_osconfig_managed.repo";
  instance_id = old.instance_id;
  universe_domain = universe_domain_default;
  numeric_project_id = old.numeric_project_id;
  osconfig_poll_interval = pos 10;
  debug_enabled = false;
  task_notification_enabled = false;
  guest_policies_enabled = false;
  os_inventory_enabled = false;
  scalibr_linux_enabled = false;
  guest_attributes_enabled = false;
  trace_get_inventory = false;
  extended_inventory_enabled = false;
  extended_inventory_extractors_allowed = [];
}

abbrev pub is_zero : ℤ → Bool
is_zero (pos zero) = true
is_zero i = false

-- The project, the instance and the universe.
unfoldable pub set_names : Metadata → Config → Config
set_names md c =
    let c1 =
      given md.of_project.project_id (λ c. record c { project_id = md.of_project.project_id }) c in
    let c2 =
      if is_zero md.of_project.numeric_project_id
      then c1
      else record c1 { numeric_project_id = md.of_project.numeric_project_id } in
    let c3 = given md.of_instance.zone (λ c. record c { instance_zone = md.of_instance.zone }) c2 in
    let c4 = given md.of_instance.name (λ c. record c { instance_name = md.of_instance.name }) c3 in
    let c5 : Config = elim md.of_instance.id [
      | none ↦ c4
      | some n ↦ record c4 { instance_id = n.text }
    ] in
    given md.universe_domain (λ c. record c { universe_domain = md.universe_domain }) c5

-- The switch over the two keys of the inventory.
unfoldable pub set_inventory : Attributes → Config → Config
set_inventory a c =
    if not (a.inventory_enabled == "")
    then record c { os_inventory_enabled = parse_bool a.inventory_enabled }
    else if not (a.inventory_enabled_old == "")
    then record c { os_inventory_enabled = parse_bool a.inventory_enabled_old }
    else c

unfoldable pub set_all : Attributes → Config → Config
set_all a = given a.osconfig_enabled (λ c. record c {
  task_notification_enabled = parse_bool a.osconfig_enabled;
  guest_policies_enabled = parse_bool a.osconfig_enabled;
  os_inventory_enabled = parse_bool a.osconfig_enabled;
})

-- The features by the attributes of the project, and then by those of the instance.
unfoldable pub set_features : Attributes → Config → Config
unfolding set_all
set_features a c = parse_features a.disabled_features false (
    set_all a (
      parse_features a.pre_release_features true
        (parse_features a.pre_release_features_old true (set_inventory a c))))

abbrev pub interval : Number → Config → Config
interval n c = elim n.int64 [ none ↦ c | some val ↦ record c { osconfig_poll_interval = val } ]

unfoldable pub set_project_interval : Attributes → Config → Config
set_project_interval a c = elim a.poll_interval [
  | some n ↦ interval n c
  | none ↦ elim a.poll_interval_old [ some n ↦ interval n c | none ↦ c ]
]

abbrev pub nil_pointer : String
nil_pointer = "invalid memory address or nil pointer dereference"

-- The second case reads `PollInterval`, which is nil there.
unfoldable pub set_instance_interval : Attributes → Config → Result String Config
set_instance_interval a c = elim a.poll_interval [
  | some n ↦ ok (interval n c)
  | none ↦ elim a.poll_interval_old [ some n ↦ panicked nil_pointer | none ↦ ok c ]
]

unfoldable pub set_log_level : Attributes → Config → Config
set_log_level a c =
    if lowers_to a.log_level "debug"
    then record c { debug_enabled = true }
    else if lowers_to a.log_level "info"
    then record c { debug_enabled = false }
    else c

-- The old key of the debug logs: the project's comes before the instance's.
unfoldable pub set_old_debug : Metadata → Config → Config
set_old_debug md c =
    let p = md.of_project.attributes in
    let i = md.of_instance.attributes in
    if not (p.debug_enabled_old == "")
    then record c { debug_enabled = parse_bool p.debug_enabled_old }
    else if not (i.debug_enabled_old == "")
    then record c { debug_enabled = parse_bool i.debug_enabled_old }
    else c

-- The flag of the command line is stronger than the metadata.
abbrev pub set_flag : Flags → Config → Config
set_flag flags c = if flags.debug then record c { debug_enabled = true } else c

unfoldable pub set_debug : Flags → Metadata → Config → Config
set_debug flags md c = set_flag flags (
    set_log_level md.of_instance.attributes
      (set_log_level md.of_project.attributes (set_old_debug md c)))

unfoldable pub set_guest_attributes : Attributes → Config → Config
set_guest_attributes a =
    given a.enable_guest_attributes
      (λ c. record c { guest_attributes_enabled = parse_bool a.enable_guest_attributes })

unfoldable pub set_scalibr_enablement : Metadata → Config → Config
set_scalibr_enablement md c =
    let p = md.of_project.attributes.scalibr_linux_enabled in
    let i = md.of_instance.attributes.scalibr_linux_enabled in
    given i (λ c. record c { scalibr_linux_enabled = parse_bool i })
      (given p (λ c. record c { scalibr_linux_enabled = parse_bool p }) c)

-- The switch over the endpoints.
unfoldable pub choose_endpoint : Flags → Metadata → String → String
choose_endpoint flags md default =
    let p = md.of_project.attributes in
    let i = md.of_instance.attributes in
    if not (flags.endpoint == prod_endpoint)
    then flags.endpoint
    else if not (i.osconfig_endpoint == "")
    then i.osconfig_endpoint
    else if not (i.osconfig_endpoint_old == "")
    then i.osconfig_endpoint_old
    else if not (p.osconfig_endpoint == "")
    then p.osconfig_endpoint
    else if not (p.osconfig_endpoint_old == "")
    then p.osconfig_endpoint_old
    else default

unfoldable pub set_svc_endpoint : Flags → Metadata → Config → Config
set_svc_endpoint flags md c =
    let zone = last_part (split_at 47 c.instance_zone) in
    let endpoint = replace_all (choose_endpoint flags md c.svc_endpoint) "{zone}" zone in
    record c {
      svc_endpoint =
          if c.universe_domain == universe_domain_default
          then endpoint
          else replace_all endpoint universe_domain_default c.universe_domain;
    }

unfoldable pub set_trace_get_inventory : Metadata → Config → Config
set_trace_get_inventory md c =
    let p = md.of_project.attributes.trace_get_inventory in
    let i = md.of_instance.attributes.trace_get_inventory in
    given i (λ c. record c { trace_get_inventory = parse_bool i })
      (given p (λ c. record c { trace_get_inventory = parse_bool p }) c)

abbrev pub set_extended_enabled : Attributes → Config → Config
set_extended_enabled a =
    given a.extended_inventory_enabled
      (λ c. record c { extended_inventory_enabled = parse_bool a.extended_inventory_enabled })

abbrev pub set_extractors : Attributes → Config → Config
set_extractors a = given a.extended_inventory_extractors_allowed (λ c. record c {
  extended_inventory_extractors_allowed = parse_slice a.extended_inventory_extractors_allowed;
})

unfoldable pub set_extended_inventory : Metadata → Config → Config
set_extended_inventory md c =
    let p = md.of_project.attributes in
    let i = md.of_instance.attributes in
    set_extractors i (set_extractors p (set_extended_enabled i (set_extended_enabled p c)))

-- What is set behind the intervals.
unfoldable pub set_rest : Flags → Metadata → Config → Config
unfolding set_guest_attributes
set_rest flags md c = set_extended_inventory md (
    set_trace_get_inventory md (
      set_svc_endpoint flags md (
        set_scalibr_enablement md (
          set_guest_attributes md.of_instance.attributes
            (set_guest_attributes md.of_project.attributes (set_debug flags md c))))))

-- `createConfigFromMetadata`, with the config before.
unfoldable pub create_config_from_metadata : Flags → Config → Metadata → Result String Config
create_config_from_metadata flags old md = do
  c ← set_instance_interval md.of_instance.attributes (
      set_project_interval md.of_project.attributes (
        set_features md.of_instance.attributes
          (set_features md.of_project.attributes (set_names md (initial old)))))
  ok (set_rest flags md c)
