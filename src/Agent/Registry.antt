-- ===== src/Agent/Registry.antt =====
-- internal/agent/registry.go: the adapters by their names. The names are trimmed by `trim`, and `sort` sorts
-- descriptors by name.
pub mod Laws
use cyber_foreman.Prelude.{
  String, str_eq, Bool, true, false, List, [], ◌∷◌, Option, none, some, if◌then◌else◌, map, Map,
  lookup, insert, ◌⊎◌, inl, inr,
}
use cyber_foreman.Agent.{
  Adapter, Capabilities, AdapterStatus, Metadata, adapter_name, capabilities_of, status_of,
  metadata_of,
}

pub data RegistryError : Type 0 where
  adapter_is_nil name_required : RegistryError
  duplicate_adapter adapter_not_found : String → RegistryError

pub record Descriptor : Type 0 where
  pub name : String
  pub capabilities : Capabilities
  pub status : AdapterStatus
  pub metadata : Metadata

abbrev pub exists : Option Adapter → Bool
exists none = false
exists (some a) = true

module _ (trim : String → String) where
  -- `Registry.Register`; an adapter may be nil.
  unfoldable pub register : Option Adapter → Map Adapter → RegistryError ⊎ Map Adapter
  register none m = inl adapter_is_nil
  register (some a) m =
      if str_eq (trim (adapter_name a)) ""
      then inl name_required
      else if exists (lookup (trim (adapter_name a)) m)
      then inl (duplicate_adapter (trim (adapter_name a)))
      else inr (insert (trim (adapter_name a)) a m)

  abbrev pub or_stop :
      RegistryError ⊎ Map Adapter
      → (Map Adapter → RegistryError ⊎ Map Adapter)
      → RegistryError ⊎ Map Adapter
  or_stop (inl e) f = inl e
  or_stop (inr m) f = f m

  -- The loop of `NewRegistry`, which the first error ends.
  unfoldable pub register_each : List (Option Adapter) → Map Adapter → RegistryError ⊎ Map Adapter
  register_each [] m = inr m
  register_each (a ∷ rest) m = or_stop (register a m) (λ m'. register_each rest m')

  -- `NewRegistry`.
  unfoldable pub new_registry : List (Option Adapter) → RegistryError ⊎ Map Adapter
  new_registry adapters = register_each adapters []

abbrev pub found : String → Option Adapter → RegistryError ⊎ Adapter
found name none = inl (adapter_not_found name)
found name (some a) = inr a

-- `Registry.Get`.
unfoldable pub get : String → Map Adapter → RegistryError ⊎ Adapter
get name m = found name (lookup name m)

abbrev descriptor_of : String × Adapter → Descriptor
descriptor_of (name, a) = record {
  name = name;
  capabilities = capabilities_of a;
  status = status_of a;
  metadata = metadata_of a;
}

-- `Registry.List`.
unfoldable pub list : (List Descriptor → List Descriptor) → Map Adapter → List Descriptor
list sort m = sort (map descriptor_of m)
