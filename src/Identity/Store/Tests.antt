-- ===== src/Identity/Store/Tests.antt =====
-- Two users, a group, a role and a binding in the tables, and the theorems at them.
use agent_roi.Base.{
  if◌then◌else◌, ℕ, ◌≡◌, ◌↔◌, refl, String, Bool, true, false, Option, none, some, List, [], ◌∷◌,
  arith, ◌==◌, eq_iff, any,
}
use agent_roi.Base.Text
use agent_roi.Base.Text.{is_empty, is_space}
use agent_roi.Result.{ok, is_ok}
use agent_roi.Dict
use agent_roi.Identity.Principal.{Principal, RoleDefinition, RoleBinding}
use agent_roi.Identity.Rbac.{RbacAuthorizer, environment_of}
use agent_roi.Identity.Rbac.Grants.{Granted}
use agent_roi.Identity.Scim.{UserPayload, GroupPayload, ScimUser, ScimGroup, Directory, plain}
use agent_roi.Identity.Directory
use agent_roi.Identity.Tables.{IdentityTables}
use agent_roi.Identity.Store.{
  create_user, replace_user, delete_user, create_group, replace_group, delete_group,
}
use agent_roi.Identity.Store.Links.{IsLinked}
use agent_roi.Identity.Store.GroupLinks.{store-IsLinked}
use agent_roi.Identity.Store.Principals.{list_groups, principal_for, principal_for_agrees}
use agent_roi.Identity.Roles.{
  save_role, save_binding, delete_role, delete_binding, authorizer, require_now,
}
use agent_roi.Identity.Roles.Decisions.{IsBound, IsCurrent, roles-IsBound, delete_role_revokes}

abbrev user : String → String → ScimUser ℕ
user id name = record {
  id = id;
  user_name = name;
  active = true;
  display_name = "";
  emails = [];
  external_id = "";
  attributes = 0;
}

abbrev auditor : RoleDefinition
auditor = record { name = "auditor"; permissions = "audit.read" ∷ []; description = "" }

abbrev bound : RoleBinding
bound = record {
  role = "auditor";
  organization_id = "o1";
  subject = "";
  group = "audit";
  environment = "*";
}

abbrev sample : IdentityTables ℕ
sample = record {
  users = user "u1" "ann" ∷ user "u2" "bob" ∷ [];
  groups = record { id = "g1"; display_name = "audit"; external_id = "" } ∷ [];
  members = record { group_id = "g1"; user_id = "u1" } ∷ [];
  roles = auditor ∷ [];
  bindings = record { binding_id = "b1"; binding = bound } ∷ [];
}

abbrev named : Option String → Option String → UserPayload ℕ
named id name = record {
  id = id;
  user_name = name;
  active = none;
  display_name = none;
  emails = plain "a@b" ∷ [];
  external_id = none;
  attributes = 0;
}

abbrev grouped : GroupPayload
grouped = record {
  id = none;
  display_name = some "ops";
  members = plain "u2" ∷ [];
  external_id = none;
}

abbrev ann : Principal
ann = record {
  subject = "ann";
  organization_id = "o1";
  display_name = "Ann";
  email = "";
  roles = [];
  groups = "audit" ∷ [];
  attributes = [];
  token_id = "";
}

-- patterns without wildcards
abbrev matches : String → String → Bool
matches text pattern = text == pattern

apart_ids : ("u1" == "u2") ≡ false
apart_ids = refl

apart_names : ("ann" == "bob") ≡ false
apart_names = refl

sample-IsLinked : IsLinked sample
sample-IsLinked = record {
  users = record {
    ids = λ i. ground (arith, eq_iff "u1" i, eq_iff "u2" i, eq_iff "u1" "u2", apart_ids);
    names = λ n. ground (arith, eq_iff "ann" n, eq_iff "bob" n, eq_iff "ann" "bob", apart_names);
    full = refl;
  };
  groups = record { ids = λ i. ground arith; names = λ n. ground arith; full = refl };
  linked = ((refl, refl), tt);
}

delete_user_test : (delete_user "u1" sample).1.members ≡ []
unfolding delete_user
delete_user_test = refl

replace_group_test :
    (replace_group "g1" grouped sample).1.members ≡ record { group_id = "g1"; user_id = "u2" } ∷ []
unfolding replace_group is_space Text.strip
replace_group_test = refl

store-IsLinked_example :
    IsLinked (create_user "u9" (named none (some "eve")) sample).1
    × IsLinked (replace_user "u1" (named none (some "eve")) sample).1
    × IsLinked (delete_user "u1" sample).1
    × IsLinked (create_group "u9" grouped sample).1
    × IsLinked (replace_group "u1" grouped sample).1
    × IsLinked (delete_group "u1" sample).1
store-IsLinked_example =
    store-IsLinked "u9" "u1" (named none (some "eve")) grouped sample refl sample-IsLinked

abbrev directory : Directory ℕ
directory = record { users = sample.users; groups = [] }

require_now_test : require_now matches sample ann "audit.read" "" none ≡ ok tt
unfolding require_now Dict.put Dict.get Dict.empty
require_now_test = refl

roles-IsBound_example :
    IsBound (save_role auditor sample)
    × IsBound (save_binding "b2" bound sample).1
    × IsBound (delete_role "auditor" sample).1
    × IsBound (delete_binding "b1" sample).1
    × ((a : RbacAuthorizer) × (authorizer sample ≡ ok a)
        × IsCurrent sample a
        × ((require_now matches sample ann "audit.read" "" none ≡ ok tt)
            ↔ Granted matches a ann "audit.read" "" (environment_of none)))
roles-IsBound_example =
    roles-IsBound matches "b2" "b1" "auditor" auditor bound sample ann "audit.read" "" none
      (refl, tt)

deleted : is_ok (delete_role "auditor" sample).0 ≡ true
unfolding delete_role
deleted = refl

delete_role_revokes_example :
    (a : RbacAuthorizer) × (authorizer (delete_role "auditor" sample).1 ≡ ok a)
    × (Dict.get a.roles "auditor" ≡ none)
    × (any (λ b. b.role == "auditor") a.bindings ≡ false)
delete_role_revokes_example = delete_role_revokes "auditor" sample (refl, tt) deleted

abbrev mapping : String → List String
mapping group = if group == "audit" then "auditor" ∷ [] else []

listed_test :
    list_groups none 0 sample
    ≡ ok (record { id = "g1"; display_name = "audit"; members = "u1" ∷ []; external_id = "" } ∷ [])
unfolding list_groups
listed_test = refl

principal_for_agrees_example :
    (groups : List ScimGroup) × (list_groups none 0 sample ≡ ok groups)
    × (principal_for "u1" "o1" mapping sample
        ≡ Directory.principal_for "u1" "o1" mapping
            (record { users = sample.users; groups = groups }))
principal_for_agrees_example = principal_for_agrees "u1" "o1" mapping sample
