-- ===== src/AgentConfig/Features.antt =====
-- What the attributes of one layer say of a feature.
use osconfig.Base.{
  String, Bool, true, false, not, ◌&&◌, ◌||◌, Option, none, some, List, [], ◌∷◌, ◌≡◌, refl, arith,
  ◌==◌, if◌then◌else◌,
}
use osconfig.AgentConfig.{Config, Attributes}
use osconfig.AgentConfig.Words.{
  split_at, trim_space, lowers_to, parse_bool, set_feature, features_loop, parse_features,
}
use osconfig.AgentConfig.Create.{set_inventory, set_all, set_features}

pub data Feature : Type 0 where
  task_notification guest_policies os_inventory : Feature

abbrev pub enabled : Feature → Config → Bool
enabled task_notification c = c.task_notification_enabled
enabled guest_policies c = c.guest_policies_enabled
enabled os_inventory c = c.os_inventory_enabled

abbrev names_tasks : String → Bool
names_tasks w = lowers_to w "tasks" || lowers_to w "ospatch"

abbrev names_policies : String → Bool
names_policies w = lowers_to w "guestpolicies" || lowers_to w "ospackage"

-- Does the word name the feature, by its name or by its legacy name? No word names two.
abbrev pub names : Feature → String → Bool
names task_notification w = names_tasks w
names guest_policies w = not (names_tasks w) && names_policies w
names os_inventory w = not (names_tasks w) && (not (names_policies w) && lowers_to w "osinventory")

-- Is the feature among the words?
abbrev pub listed : Feature → List String → Bool
listed f [] = false
listed f (w ∷ ws) = names f (trim_space w) || listed f ws

-- What the key of the inventory says, which is about one feature only.
abbrev pub inventory : Feature → Attributes → Option Bool
inventory task_notification a = none
inventory guest_policies a = none
inventory os_inventory a =
    if not (a.inventory_enabled == "")
    then some (parse_bool a.inventory_enabled)
    else if not (a.inventory_enabled_old == "")
    then some (parse_bool a.inventory_enabled_old)
    else none

-- What the attributes of one layer say of a feature, the strongest key first: the disabled features, the
-- key of the whole agent, the features before their release, and the key of the inventory.
abbrev pub says : Feature → Attributes → Option Bool
says f a =
    if listed f (split_at 44 a.disabled_features)
    then some false
    else if not (a.osconfig_enabled == "")
    then some (parse_bool a.osconfig_enabled)
    else if listed f (split_at 44 a.pre_release_features)
        || listed f (split_at 44 a.pre_release_features_old)
    then some true
    else inventory f a

abbrev pub or_else : Option Bool → Bool → Bool
or_else none b = b
or_else (some a) b = a

enabled-set_feature :
    (f : Feature) (w : String) (e : Bool) (c : Config)
    → enabled f (set_feature w e c) ≡ (if names f w then e else enabled f c)
unfolding set_feature
enabled-set_feature task_notification w e c = ground arith
enabled-set_feature guest_policies w e c = ground arith
enabled-set_feature os_inventory w e c = ground arith

enabled-features_loop :
    (f : Feature) (ws : List String) (e : Bool) (c : Config)
    → enabled f (features_loop ws e c) ≡ (if listed f ws then e else enabled f c)
unfolding features_loop
enabled-features_loop f [] e c = refl
enabled-features_loop f (w ∷ ws) e c =
    let c1 = set_feature (trim_space w) e c in
    ground (arith, enabled-features_loop f ws e c1, enabled-set_feature f (trim_space w) e c)

enabled-set_all :
    (f : Feature) (a : Attributes) (c : Config)
    → enabled f (set_all a c)
      ≡ (if a.osconfig_enabled == "" then enabled f c else parse_bool a.osconfig_enabled)
unfolding set_all
enabled-set_all task_notification a c = ground arith
enabled-set_all guest_policies a c = ground arith
enabled-set_all os_inventory a c = ground arith

enabled-set_inventory :
    (f : Feature) (a : Attributes) (c : Config)
    → enabled f (set_inventory a c) ≡ or_else (inventory f a) (enabled f c)
unfolding set_inventory
enabled-set_inventory task_notification a c = ground arith
enabled-set_inventory guest_policies a c = ground arith
enabled-set_inventory os_inventory a c = ground arith

pub enabled-set_features :
    (f : Feature) (a : Attributes) (c : Config)
    → enabled f (set_features a c) ≡ or_else (says f a) (enabled f c)
unfolding set_features parse_features
enabled-set_features f a c =
    let c1 = set_inventory a c in
    let c2 = parse_features a.pre_release_features_old true c1 in
    let c3 = parse_features a.pre_release_features true c2 in
    let c4 = set_all a c3 in
    ground (
      arith,
      enabled-features_loop f (split_at 44 a.disabled_features) false c4,
      enabled-set_all f a c3,
      enabled-features_loop f (split_at 44 a.pre_release_features) true c2,
      enabled-features_loop f (split_at 44 a.pre_release_features_old) true c1,
      enabled-set_inventory f a c,
    )
