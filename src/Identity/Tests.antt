-- ===== src/Identity/Tests.antt =====
-- An authorizer with one role, a directory with two users and a group, and the theorems at them.
use agent_roi.Base.{
  ℕ, ◌≡◌, ◌↔◌, refl, String, Bool, true, false, Option, none, some, [], ◌∷◌, arith, ◌==◌, eq_iff,
}
use agent_roi.Base.Text
use agent_roi.Base.Text.{is_empty}
use agent_roi.Result.{ok, is_ok}
use agent_roi.Dict
use agent_roi.Table.{select_one}
use agent_roi.Identity.Principal.{Principal, RoleDefinition, RoleBinding}
use agent_roi.Identity.Rbac.{RbacAuthorizer, authorize, require, permissions_for, effective_roles}
use agent_roi.Identity.Rbac.Grants.{Granted, require-Granted}
use agent_roi.Identity.Scim.{
  UserPayload, GroupPayload, ScimUser, ScimGroup, Directory, plain, user_id, user_of, groups_of,
}
use agent_roi.Identity.Directory.{
  create_user, replace_user, delete_user, create_group, replace_group, delete_group, get_user,
}
use agent_roi.Identity.Directory.Keys.{IsSound}
use agent_roi.Identity.Directory.Groups.{directory-IsSound}
use agent_roi.Identity.Directory.Replacement.{replace_user_refused, create_user_inherits}

abbrev ann : Principal
ann = record {
  subject = "ann";
  organization_id = "o1";
  display_name = "Ann";
  email = "";
  roles = [];
  groups = "audit" ∷ [];
  attributes = [];
  token_id = "";
}

abbrev auditor : RoleDefinition
auditor = record { name = "auditor"; permissions = "audit.read" ∷ []; description = "" }

abbrev bound : String → RoleBinding
bound organization = record {
  role = "auditor";
  organization_id = organization;
  subject = "";
  group = "audit";
  environment = "*";
}

abbrev authorizer : RbacAuthorizer
authorizer = record {
  roles = Dict.put Dict.empty "auditor" auditor;
  bindings = bound "o2" ∷ bound "o1" ∷ [];
  default_deny = true;
}

-- patterns without wildcards
abbrev matches : String → String → Bool
matches text pattern = text == pattern

require_test : require matches authorizer ann "audit.read" "" none ≡ ok tt
unfolding require authorize permissions_for effective_roles Dict.put Dict.get Dict.empty
require_test = refl

require-Granted_example :
    (require matches authorizer ann "audit.read" "" none ≡ ok tt)
    ↔ Granted matches authorizer ann "audit.read" "" "*"
require-Granted_example = require-Granted matches authorizer ann "audit.read" "" none refl

abbrev user : String → String → ScimUser ℕ
user id name = record {
  id = id;
  user_name = name;
  active = true;
  display_name = "";
  emails = [];
  external_id = "";
  attributes = 0;
}

abbrev auditors : ScimGroup
auditors = record { id = "g1"; display_name = "audit"; members = "u1" ∷ []; external_id = "" }

abbrev sample : Directory ℕ
sample = record { users = user "u1" "ann" ∷ user "u2" "bob" ∷ []; groups = auditors ∷ [] }

abbrev named : Option String → Option String → UserPayload ℕ
named id name = record {
  id = id;
  user_name = name;
  active = none;
  display_name = none;
  emails = plain "a@b" ∷ [];
  external_id = none;
  attributes = 0;
}

abbrev grouped : GroupPayload
grouped = record {
  id = none;
  display_name = some "ops";
  members = plain "u2" ∷ [];
  external_id = none;
}

apart_ids : ("u1" == "u2") ≡ false
apart_ids = refl

apart_names : ("ann" == "bob") ≡ false
apart_names = refl

sample-IsSound : IsSound sample
sample-IsSound = record {
  users = record {
    ids = λ i. ground (arith, eq_iff "u1" i, eq_iff "u2" i, eq_iff "u1" "u2", apart_ids);
    names = λ n. ground (arith, eq_iff "ann" n, eq_iff "bob" n, eq_iff "ann" "bob", apart_names);
    full = refl;
  };
  groups = record { ids = λ i. ground arith; names = λ n. ground arith; full = refl };
  known = ((refl, tt), tt);
}

directory-IsSound_example :
    IsSound (create_user "u9" (named none (some "eve")) sample).1
    × IsSound (replace_user "u9" "u1" (named none (some "eve")) sample).1
    × IsSound (delete_user "u1" sample).1
    × IsSound (create_group "u9" grouped sample).1
    × IsSound (replace_group "u9" "u1" grouped sample).1
    × IsSound (delete_group "u1" sample).1
directory-IsSound_example =
    directory-IsSound "u9" "u1" (named none (some "eve")) grouped sample refl sample-IsSound

refused_test : is_ok (replace_user "u9" "u1" (named none (some "bob")) sample).0 ≡ false
unfolding replace_user create_user Text.strip
refused_test = refl

replace_user_refused_example :
    (select_one (user_id "u1") (replace_user "u9" "u1" (named none (some "bob")) sample).1.users
      ≡ select_one (user_id "u1") sample.users)
    × ((replace_user "u9" "u1" (named none (some "bob")) sample).1.groups ≡ sample.groups)
replace_user_refused_example =
    replace_user_refused "u9" "u1" "u1" (named none (some "bob")) sample refused_test

create_user_inherits_example :
    ((create_user "u9" (named (some "u1") (some "eve")) sample).0
      ≡ ok (user_of "u9" (named (some "u1") (some "eve"))))
    × (get_user "u1" (create_user "u9" (named (some "u1") (some "eve")) sample).1
        ≡ ok (user_of "u9" (named (some "u1") (some "eve"))))
    × (groups_of "u1" (create_user "u9" (named (some "u1") (some "eve")) sample).1.groups
        ≡ groups_of "u1" sample.groups)
unfolding Text.strip
create_user_inherits_example =
    create_user_inherits "u9" "u1" (named (some "u1") (some "eve")) sample (user "u1" "ann") refl
      refl refl refl refl

deleted_test : is_ok (delete_user "u1" sample).0 ≡ true
unfolding delete_user
deleted_test = refl
