-- ===== src/Identity/Principal.antt =====
-- `Principal`, `RoleDefinition` and `RoleBinding` of enterprise/identity.py. A set is a list of its members,
-- and the values of a principal's attributes are texts and flags.
use agent_roi.Base.{String, Bool, true, false, List, [], ◌∷◌, ◌==◌, any, not, ◌||◌, if◌then◌else◌}
use agent_roi.Base.Text.{strip, is_blank}
use agent_roi.Result.{Result, ok, err, ◌>>=◌, ◌>>◌, raise_if}

pub data IdentityError : Type 0 where
  blank_text blank_subject blank_organization blank_role bad_binding unknown_role : IdentityError
  blank_name name_taken unknown_members unknown_user unknown_group : IdentityError
  inactive_user not_authorized unknown_role_name unknown_binding integrity_error bad_limit :
      IdentityError

-- `x in s`, and `s | {x}`
abbrev pub member : String → List String → Bool
member x s = any (λ y. y == x) s

abbrev pub adjoin : String → List String → List String
adjoin x s = if member x s then s else x ∷ s

abbrev pub union : List String → List String → List String
union [] t = t
union (x ∷ s) t = adjoin x (union s t)

-- `_clean_set`
unfoldable pub clean_set : List String → Result IdentityError (List String)
clean_set [] = ok []
clean_set (value ∷ values) =
    let rest = clean_set values in
    if is_blank value
    then err blank_text
    else elim rest [ err x ↦ err x | ok cleaned ↦ ok (adjoin (strip value) cleaned) ]

pub data Attribute : Type 0 where
  text_of : String → Attribute
  flag_of : Bool → Attribute

pub record Principal : Type 0 where
  pub subject : String
  pub organization_id : String
  pub display_name : String
  pub email : String
  pub roles : List String
  pub groups : List String
  pub attributes : List (String × Attribute)
  pub token_id : String

-- `Principal.__post_init__`
unfoldable pub new_principal : Principal → Result IdentityError Principal
unfolding clean_set
new_principal p = do
  raise_if (is_blank p.subject) blank_subject
  raise_if (is_blank p.organization_id) blank_organization
  roles ← clean_set p.roles
  groups ← clean_set p.groups
  ok (record p {
    subject = strip p.subject;
    organization_id = strip p.organization_id;
    roles = roles;
    groups = groups;
  })

pub record RoleDefinition : Type 0 where
  pub name : String
  pub permissions : List String
  pub description : String

-- `RoleDefinition.__post_init__`
unfoldable pub new_role : RoleDefinition → Result IdentityError RoleDefinition
unfolding clean_set
new_role r = do
  raise_if (is_blank r.name) blank_role
  permissions ← clean_set r.permissions
  ok (record r { name = strip r.name; permissions = permissions })

pub record RoleBinding : Type 0 where
  pub role : String
  pub organization_id : String
  pub subject : String
  pub group : String
  pub environment : String

abbrev pub same_flag : Bool → Bool → Bool
same_flag true b = b
same_flag false b = not b

-- `RoleBinding.__post_init__`
unfoldable pub check_binding : RoleBinding → Result IdentityError (Unit {0})
check_binding b =
    raise_if (is_blank b.role || is_blank b.organization_id) blank_role
    >> raise_if (same_flag (not (is_blank b.subject)) (not (is_blank b.group))) bad_binding
