-- ===== src/AgentConfig/Keeps.antt =====
-- The steps of createConfigFromMetadata that leave the features as they are.
use osconfig.Base.{String, false, ◌≡◌, refl, ◌∙◌, ok, arith}
use osconfig.AgentConfig.{Config, Number, Attributes, Metadata, Flags}
use osconfig.AgentConfig.Create.{
  given, initial, set_names, interval, set_project_interval, set_instance_interval, set_log_level,
  set_old_debug, set_flag, set_debug, set_guest_attributes, set_scalibr_enablement,
  set_svc_endpoint, set_trace_get_inventory, set_extended_enabled, set_extractors,
  set_extended_inventory, set_rest,
}
use osconfig.AgentConfig.Features.{
  Feature, task_notification, guest_policies, os_inventory, enabled,
}

-- A step leaves the features.
abbrev pub Keeps : (Config → Config) → Type 0
Keeps g = (f : Feature) (c : Config) → enabled f (g c) ≡ enabled f c

given-Keeps : (s : String) (g : Config → Config) → Keeps g → Keeps (given s g)
given-Keeps s g k f c = ground (arith, k f c)

interval-Keeps : (n : Number) → Keeps (interval n)
interval-Keeps n task_notification c = ground arith
interval-Keeps n guest_policies c = ground arith
interval-Keeps n os_inventory c = ground arith

pub set_project_interval-Keeps : (a : Attributes) → Keeps (set_project_interval a)
unfolding set_project_interval
set_project_interval-Keeps a task_notification c = ground arith
set_project_interval-Keeps a guest_policies c = ground arith
set_project_interval-Keeps a os_inventory c = ground arith

pub set_instance_interval-Keeps :
    (a : Attributes) (f : Feature) (c : Config) {d : Config}
    → set_instance_interval a c ≡ ok d
    → enabled f d ≡ enabled f c
unfolding set_instance_interval
set_instance_interval-Keeps a task_notification c e = ground arith
set_instance_interval-Keeps a guest_policies c e = ground arith
set_instance_interval-Keeps a os_inventory c e = ground arith

set_log_level-Keeps : (a : Attributes) → Keeps (set_log_level a)
unfolding set_log_level
set_log_level-Keeps a task_notification c = ground arith
set_log_level-Keeps a guest_policies c = ground arith
set_log_level-Keeps a os_inventory c = ground arith

set_old_debug-Keeps : (md : Metadata) → Keeps (set_old_debug md)
unfolding set_old_debug
set_old_debug-Keeps md task_notification c = ground arith
set_old_debug-Keeps md guest_policies c = ground arith
set_old_debug-Keeps md os_inventory c = ground arith

set_flag-Keeps : (flags : Flags) → Keeps (set_flag flags)
set_flag-Keeps flags task_notification c = ground arith
set_flag-Keeps flags guest_policies c = ground arith
set_flag-Keeps flags os_inventory c = ground arith

set_debug-Keeps : (flags : Flags) (md : Metadata) → Keeps (set_debug flags md)
unfolding set_debug
set_debug-Keeps flags md f c =
    let c1 = set_old_debug md c in
    let c2 = set_log_level md.of_project.attributes c1 in
    set_flag-Keeps flags f (set_log_level md.of_instance.attributes c2)
    ∙ set_log_level-Keeps md.of_instance.attributes f c2
    ∙ set_log_level-Keeps md.of_project.attributes f c1
    ∙ set_old_debug-Keeps md f c

set_guest_attributes-Keeps : (a : Attributes) → Keeps (set_guest_attributes a)
unfolding set_guest_attributes
set_guest_attributes-Keeps a task_notification c = ground arith
set_guest_attributes-Keeps a guest_policies c = ground arith
set_guest_attributes-Keeps a os_inventory c = ground arith

set_scalibr_enablement-Keeps : (md : Metadata) → Keeps (set_scalibr_enablement md)
unfolding set_scalibr_enablement
set_scalibr_enablement-Keeps md task_notification c = ground arith
set_scalibr_enablement-Keeps md guest_policies c = ground arith
set_scalibr_enablement-Keeps md os_inventory c = ground arith

set_svc_endpoint-Keeps : (flags : Flags) (md : Metadata) → Keeps (set_svc_endpoint flags md)
unfolding set_svc_endpoint
set_svc_endpoint-Keeps flags md task_notification c = refl
set_svc_endpoint-Keeps flags md guest_policies c = refl
set_svc_endpoint-Keeps flags md os_inventory c = refl

set_trace_get_inventory-Keeps : (md : Metadata) → Keeps (set_trace_get_inventory md)
unfolding set_trace_get_inventory
set_trace_get_inventory-Keeps md task_notification c = ground arith
set_trace_get_inventory-Keeps md guest_policies c = ground arith
set_trace_get_inventory-Keeps md os_inventory c = ground arith

set_extended_enabled-Keeps : (a : Attributes) → Keeps (set_extended_enabled a)
set_extended_enabled-Keeps a task_notification c = ground arith
set_extended_enabled-Keeps a guest_policies c = ground arith
set_extended_enabled-Keeps a os_inventory c = ground arith

set_extractors-Keeps : (a : Attributes) → Keeps (set_extractors a)
set_extractors-Keeps a task_notification c = ground arith
set_extractors-Keeps a guest_policies c = ground arith
set_extractors-Keeps a os_inventory c = ground arith

set_extended_inventory-Keeps : (md : Metadata) → Keeps (set_extended_inventory md)
unfolding set_extended_inventory
set_extended_inventory-Keeps md f c =
    let p = md.of_project.attributes in
    let i = md.of_instance.attributes in
    let c1 = set_extended_enabled p c in
    let c2 = set_extended_enabled i c1 in
    let c3 = set_extractors p c2 in
    set_extractors-Keeps i f c3
    ∙ set_extractors-Keeps p f c2
    ∙ set_extended_enabled-Keeps i f c1
    ∙ set_extended_enabled-Keeps p f c

pub enabled-set_names :
    (f : Feature) (md : Metadata) (old : Config) → enabled f (set_names md (initial old)) ≡ false
unfolding set_names initial
enabled-set_names task_notification md old = ground arith
enabled-set_names guest_policies md old = ground arith
enabled-set_names os_inventory md old = ground arith

pub set_rest-Keeps : (flags : Flags) (md : Metadata) → Keeps (set_rest flags md)
unfolding set_rest
set_rest-Keeps flags md f c =
    let c1 = set_debug flags md c in
    let c2 = set_guest_attributes md.of_project.attributes c1 in
    let c3 = set_guest_attributes md.of_instance.attributes c2 in
    let c4 = set_scalibr_enablement md c3 in
    let c5 = set_svc_endpoint flags md c4 in
    let c6 = set_trace_get_inventory md c5 in
    set_extended_inventory-Keeps md f c6
    ∙ set_trace_get_inventory-Keeps md f c5
    ∙ set_svc_endpoint-Keeps flags md f c4
    ∙ set_scalibr_enablement-Keeps md f c3
    ∙ set_guest_attributes-Keeps md.of_instance.attributes f c2
    ∙ set_guest_attributes-Keeps md.of_project.attributes f c1
    ∙ set_debug-Keeps flags md f c
