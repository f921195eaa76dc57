-- ===== src/Core/Capabilities.antt =====
-- routecraft_core/host_capabilities.py
pub mod Declared
use codex_routecraft.Prelude.{
  ℕ, Bool, true, false, not, ◌&&◌, ◌||◌, String, Option, none, some, List, [], ◌∷◌, Result, ok, err,
  ◌>>=◌, ◌>>◌, require, find_first, any, contains, map, ◌==◌, if◌then◌else◌,
}
use codex_routecraft.Core.Words.{is_opaque_id}

-- A declared state: `none` is null.
abbrev pub Capabilities : Type 0
Capabilities = List (String × Option Bool)

pub record ModelCapability : Type 0 where
  pub model : String
  pub capabilities : Capabilities

pub record HostCapability : Type 0 where
  pub host : String
  pub capabilities : Capabilities
  pub models : List ModelCapability

pub record ProviderCapability : Type 0 where
  pub provider : String
  pub capabilities : Capabilities
  pub hosts : List HostCapability

abbrev pub Registry : Type 0
Registry = List ProviderCapability

pub data CapabilityError : Type 0 where
  invalid_identifier : String → CapabilityError
  duplicated : String → CapabilityError

-- `_identifier`
unfoldable pub identifier : String → Result CapabilityError (Unit {0})
unfolding is_opaque_id
identifier s = require (is_opaque_id s) (invalid_identifier s)

-- `_capabilities`: the names are checked, the states are taken over.
unfoldable pub check_capabilities : Capabilities → Result CapabilityError (Unit {0})
unfolding identifier
check_capabilities [] = ok tt
check_capabilities ((name, _) ∷ cs) = identifier name >> check_capabilities cs

unfoldable pub check_models : List String → List ModelCapability → Result CapabilityError (Unit {0})
unfolding identifier check_capabilities contains
check_models seen [] = ok tt
check_models seen (m ∷ ms) = do
  identifier m.model
  require (not (contains seen m.model)) (duplicated m.model)
  check_capabilities m.capabilities
  check_models (m.model ∷ seen) ms

unfoldable pub check_hosts : List String → List HostCapability → Result CapabilityError (Unit {0})
unfolding identifier check_capabilities check_models contains
check_hosts seen [] = ok tt
check_hosts seen (h ∷ hs) = do
  identifier h.host
  require (not (contains seen h.host)) (duplicated h.host)
  check_models [] h.models
  check_capabilities h.capabilities
  check_hosts (h.host ∷ seen) hs

unfoldable pub check_providers :
    List String → List ProviderCapability → Result CapabilityError (Unit {0})
unfolding identifier check_capabilities check_hosts contains
check_providers seen [] = ok tt
check_providers seen (p ∷ ps) = do
  identifier p.provider
  require (not (contains seen p.provider)) (duplicated p.provider)
  check_hosts [] p.hosts
  check_capabilities p.capabilities
  check_providers (p.provider ∷ seen) ps

-- `from_mapping`, on records of the shape that it asks for.
unfoldable pub from_mapping : List ProviderCapability → Result CapabilityError Registry
unfolding check_providers
from_mapping ps = do check_providers [] ps; ok ps

-- `capabilities.get(name)`: an absent name is unknown too.
unfoldable pub state_of : Capabilities → String → Option Bool
unfolding ◌==◌
state_of [] name = none
state_of ((k, s) ∷ cs) name = if k == name then s else state_of cs name

abbrev pub is_declared_false : Option Bool → Bool
is_declared_false (some false) = true
is_declared_false _ = false

-- `next((item for item in ... if item.name == name), None)`
unfoldable pub find_provider : Registry → String → Option ProviderCapability
unfolding find_first ◌==◌
find_provider r p = find_first (λ x. x.provider == p) r

unfoldable pub find_host : ProviderCapability → String → Option HostCapability
unfolding find_first ◌==◌
find_host p h = find_first (λ x. x.host == h) p.hosts

unfoldable pub find_model : HostCapability → String → Option ModelCapability
unfolding find_first ◌==◌
find_model h m = find_first (λ x. x.model == m) h.models

-- The first known state, from the most specific scope: the list is reversed already.
unfoldable pub most_specific : List (Option Bool) → Option Bool
most_specific [] = none
most_specific (some b ∷ _) = some b
most_specific (none ∷ ss) = most_specific ss

unfoldable pub merge_states : String → List (Option Bool) → Option Bool
unfolding any most_specific ◌==◌
merge_states name states =
    if (name == "available") && any is_declared_false states
    then some false
    else most_specific states

-- The declared states of the scopes that are asked for, the most specific first; `none` where one
-- of them is not in the registry.
unfoldable pub model_states :
    String → List (Option Bool) → HostCapability → Option String → Option (List (Option Bool))
unfolding find_model state_of
model_states name states h none = some states
model_states name states h (some m) = elim (find_model h m) [
  | none ↦ none
  | some record_of ↦ some (state_of record_of.capabilities name ∷ states)
]

unfoldable pub host_states :
    String → ProviderCapability → Option String → Option String → Option (List (Option Bool))
unfolding find_host model_states state_of
host_states name p none none = some (state_of p.capabilities name ∷ [])
host_states name p none (some m) = none
host_states name p (some h) model = elim (find_host p h) [
  | none ↦ none
  | some host ↦
      model_states name (state_of host.capabilities name ∷ state_of p.capabilities name ∷ []) host
        model
]

unfoldable pub capability : Registry → String → (provider host model : Option String) → Option Bool
unfolding find_provider host_states merge_states
capability r name none host model = none
capability r name (some p) host model = elim (find_provider r p) [
  | none ↦ none
  | some found ↦ elim (host_states name found host model) [
    | none ↦ none
    | some states ↦ merge_states name states
  ]
]

unfoldable pub model_known : Registry → (provider host model : Option String) → Bool
unfolding any ◌==◌
model_known r provider host none = true
model_known r none host (some m) = false
model_known r (some p) none (some m) = false
model_known r (some p) (some h) (some m) =
    any
      (λ x.
        (x.provider == p) && any (λ y. (y.host == h) && any (λ z. z.model == m) y.models) x.hosts)
      r
