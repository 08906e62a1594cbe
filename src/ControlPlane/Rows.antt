-- ===== src/ControlPlane/Rows.antt =====
-- The rows of the control plane's tables, their keys, and what the statements write.
use agent_roi.Base.{
  ℕ, ◌+◌, String, Bool, true, Option, none, some, List, ◌==◌, is_some, nat_eq, ◌&&◌, if◌then◌else◌,
}
use agent_roi.Result.{Exec}
use agent_roi.Table.{insert, update, select_one}

-- Every bundle has the status `published`, which is left out, as is the metadata of an agent.
pub record PolicyBundle (P : Type 0) : Type 0 where
  pub organization_id : String
  pub name : String
  pub environment : String
  pub version : String
  pub policy : P
  pub digest : String
  pub signature : String
  pub signer_key_id : String
  pub created_at : ℕ
  pub created_by : String

pub record ActivePolicy : Type 0 where
  pub organization_id : String
  pub name : String
  pub environment : String
  pub version : String
  pub activated_at : ℕ
  pub activated_by : String
  pub revision : ℕ

pub record PolicyRollout : Type 0 where
  pub organization_id : String
  pub name : String
  pub environment : String
  pub primary_version : String
  pub candidate_version : String
  pub candidate_percentage : ℕ
  pub seed : String
  pub updated_at : ℕ
  pub updated_by : String
  pub revision : ℕ

pub record Agent : Type 0 where
  pub organization_id : String
  pub agent_id : String
  pub environment : String
  pub owner : String
  pub purpose : String
  pub status : String
  pub registered_at : ℕ
  pub last_heartbeat : Option ℕ
  pub policy_digest : Option String
  pub version : String
  pub revision : ℕ

pub record Store (P : Type 0) : Type 0 where
  pub bundles : List (PolicyBundle P)
  pub active : List ActivePolicy
  pub rollouts : List PolicyRollout
  pub agents : List Agent

-- The errors of the store and of the service.
pub data StoreError : Type 0 where
  version_exists bundle_not_found no_active_policy no_rollout agent_not_found : StoreError
  active_conflict rollout_conflict agent_conflict bad_percentage same_version : StoreError
  unknown_signer digest_mismatch bad_signature invalid_policy : StoreError

abbrev pub Storing : Type 0 → Type 0 → Type 0
Storing P A = Exec StoreError (Store P) A

-- The primary key of a policy: organization, name and environment.
pub record Slot : Type 0 where
  pub organization_id : String
  pub name : String
  pub environment : String

abbrev pub bundle_at : {P : Type 0} → Slot → String → PolicyBundle P → Bool
bundle_at s version b =
    b.organization_id == s.organization_id
    && b.name == s.name
    && b.environment == s.environment
    && b.version == version

abbrev pub active_at : Slot → ActivePolicy → Bool
active_at s a =
    a.organization_id == s.organization_id && a.name == s.name && a.environment == s.environment

abbrev pub rollout_at : Slot → PolicyRollout → Bool
rollout_at s r =
    r.organization_id == s.organization_id && r.name == s.name && r.environment == s.environment

abbrev pub agent_at : String → String → String → Agent → Bool
agent_at organization agent environment a =
    a.organization_id == organization && a.agent_id == agent && a.environment == environment

-- `INSERT … ON CONFLICT DO UPDATE`
abbrev pub upsert : {R : Type 0} → (R → Bool) → R → (R → R) → List R → List R
upsert p r f t = if is_some (select_one p t) then update p f t else insert r t

abbrev pub activated : String → ℕ → String → ActivePolicy → ActivePolicy
activated version now by a = record a {
  version = version;
  activated_at = now;
  activated_by = by;
  revision = a.revision + 1;
}

abbrev pub new_active : Slot → String → ℕ → String → ActivePolicy
new_active s version now by = record {
  organization_id = s.organization_id;
  name = s.name;
  environment = s.environment;
  version = version;
  activated_at = now;
  activated_by = by;
  revision = 1;
}

abbrev pub restarted : String → String → ℕ → String → ℕ → String → PolicyRollout → PolicyRollout
restarted primary candidate percentage seed now by r = record r {
  primary_version = primary;
  candidate_version = candidate;
  candidate_percentage = percentage;
  seed = seed;
  updated_at = now;
  updated_by = by;
  revision = r.revision + 1;
}

abbrev pub new_rollout : Slot → String → String → ℕ → String → ℕ → String → PolicyRollout
new_rollout s primary candidate percentage seed now by = record {
  organization_id = s.organization_id;
  name = s.name;
  environment = s.environment;
  primary_version = primary;
  candidate_version = candidate;
  candidate_percentage = percentage;
  seed = seed;
  updated_at = now;
  updated_by = by;
  revision = 1;
}

abbrev pub reregistered : String → String → String → String → Agent → Agent
reregistered owner purpose status version a = record a {
  owner = owner;
  purpose = purpose;
  status = status;
  version = version;
  revision = a.revision + 1;
}

abbrev pub new_agent : String → String → String → String → String → String → String → ℕ → Agent
new_agent organization agent environment owner purpose status version now = record {
  organization_id = organization;
  agent_id = agent;
  environment = environment;
  owner = owner;
  purpose = purpose;
  status = status;
  registered_at = now;
  last_heartbeat = none;
  policy_digest = none;
  version = version;
  revision = 1;
}

abbrev pub beaten : String → String → String → ℕ → Agent → Agent
beaten digest version status now a = record a {
  last_heartbeat = some now;
  policy_digest = some digest;
  version = version;
  status = status;
  revision = a.revision + 1;
}

abbrev pub at_revision : Option ℕ → Agent → Bool
at_revision none a = true
at_revision (some n) a = nat_eq a.revision n

-- the conditions of the guarded UPDATEs
abbrev pub active_as : Slot → ℕ → ActivePolicy → Bool
active_as s expected a = active_at s a && nat_eq a.revision expected

abbrev pub rollout_as : Slot → ℕ → PolicyRollout → Bool
rollout_as s expected r = rollout_at s r && nat_eq r.revision expected

abbrev pub agent_as : String → String → String → Option ℕ → Agent → Bool
agent_as organization agent environment expected a =
    agent_at organization agent environment a && at_revision expected a
