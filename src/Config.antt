-- ===== src/Config.antt =====
-- config/config.go: the wrapper through which a config task drives one resource. The four kinds of
-- resource behind it are the parameter `Backend`, by the number of the call.
use osconfig.Base.{ℕ, String, Bool, false, Option, none, some}

-- The cases of `GetResourceType`.
pub data ResourceType : Type 0 where
  pkg repository file exec : ResourceType
  unset : ResourceType
  unexpected : String → ResourceType

-- `resource` is nil until `Validate` sets it. The managed resources that `Validate` keeps are read by
-- no code that runs, and are left out.
pub record OsPolicyResource : Type 0 where
  pub resource_type : ResourceType
  pub resource : Option ResourceType
  pub in_desired_state : Bool

-- The methods of the interface `resource`, where they return: an error or none, and whether the state is
-- the desired one. A method that panics, as the validation of a package does where its cache file holds
-- null, ends the agent, and no `Backend` stands for it.
pub record Backend : Type 0 where
  pub validate : ℕ → Option String
  pub check_state : ℕ → Bool × Option String
  pub enforce_state : ℕ → Bool × Option String
  pub output : ℕ → Option String
  pub cleanup : ℕ → Option String

abbrev pub new_resource : ResourceType → OsPolicyResource
new_resource t = record { resource_type = t; resource = none; in_desired_state = false }

module _ (backend : Backend) where
  unfoldable pub validate_known :
      ResourceType → ℕ → OsPolicyResource → Option String × OsPolicyResource
  validate_known t n r = (backend.validate n, record r { resource = some t })

  -- `Validate`
  unfoldable pub validate : ℕ → OsPolicyResource → Option String × OsPolicyResource
  unfolding validate_known
  validate n r = elim r.resource_type [
    | pkg ↦ validate_known pkg n r
    | repository ↦ validate_known repository n r
    | file ↦ validate_known file n r
    | exec ↦ validate_known exec n r
    | unset ↦ (some "ResourceType field not set", r)
    | unexpected t ↦ (some "ResourceType has unexpected type", r)
  ]

  -- `CheckState`: the flag is written also where an error is returned.
  unfoldable pub check_state : ℕ → OsPolicyResource → Option String × OsPolicyResource
  check_state n r = elim r.resource [
    | none ↦ (some "CheckState run before Validate", r)
    | some t ↦
        let (desired, e) = backend.check_state n in (e, record r { in_desired_state = desired })
  ]

  unfoldable pub enforce_state : ℕ → OsPolicyResource → Option String × OsPolicyResource
  enforce_state n r = elim r.resource [
    | none ↦ (some "EnforceState run before Validate", r)
    | some t ↦
        let (desired, e) = backend.enforce_state n in (e, record r { in_desired_state = desired })
  ]

  -- `PopulateOutput` gives the output to record, if there is one.
  unfoldable pub populate_output : ℕ → OsPolicyResource → Option String × Option String
  populate_output n r = elim r.resource [
    | none ↦ (some "PopulateOutput run before Validate", none)
    | some t ↦ (none, backend.output n)
  ]

  unfoldable pub cleanup : ℕ → OsPolicyResource → Option String
  cleanup n r = elim r.resource [
    | none ↦ some "Cleanup run before Validate"
    | some t ↦ backend.cleanup n
  ]
