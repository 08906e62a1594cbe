-- ===== src/Identity/Tables.antt =====
-- The tables of `SqliteIdentityStore` of enterprise/identity.py, and what its methods read from a request.
use agent_roi.Base.{
  ℕ, String, Bool, Option, none, some, List, [], ◌∷◌, ◌==◌, drop, min, nat_eq, take, if◌then◌else◌,
}
use agent_roi.Base.Text.{strip, is_blank}
use agent_roi.Result.{Result, ok, err, Exec}
use agent_roi.Identity.Principal.{IdentityError, bad_limit, RoleDefinition, RoleBinding}
use agent_roi.Identity.Scim.{Item, plain, valued, other, GroupPayload, ScimUser, ScimGroup, set_of}

-- A row of `scim_groups`, and one of `scim_group_members`.
pub record GroupRow : Type 0 where
  pub id : String
  pub display_name : String
  pub external_id : String

pub record Membership : Type 0 where
  pub group_id : String
  pub user_id : String

pub record BindingRow : Type 0 where
  pub binding_id : String
  pub binding : RoleBinding

pub record IdentityTables (V : Type 0) : Type 0 where
  pub users : List (ScimUser V)
  pub groups : List GroupRow
  pub members : List Membership
  pub roles : List RoleDefinition
  pub bindings : List BindingRow

-- The conditions of the statements.
abbrev pub row_id : String → GroupRow → Bool
row_id id g = g.id == id

abbrev pub row_name : String → GroupRow → Bool
row_name name g = g.display_name == name

abbrev pub of_group : String → Membership → Bool
of_group id m = m.group_id == id

abbrev pub of_user : String → Membership → Bool
of_user id m = m.user_id == id

abbrev pub role_name : String → RoleDefinition → Bool
role_name name r = r.name == name

abbrev pub of_role : String → BindingRow → Bool
of_role name b = b.binding.role == name

abbrev pub has_binding : String → BindingRow → Bool
has_binding id b = b.binding_id == id

-- `str(…).strip()` of every entry, but for the blank ones
abbrev pub printed : Item → String
printed (plain t) = t
printed (valued t) = t
printed (other t) = t

abbrev pub printed_texts : List Item → List String
printed_texts [] = []
printed_texts (i ∷ l) =
    let rest = printed_texts l in if is_blank (printed i) then rest else strip (printed i) ∷ rest

-- `LIMIT ? OFFSET ?`, with the checks of both
abbrev pub page : {A : Type 0} → Option ℕ → ℕ → List A → Result IdentityError (List A)
page none offset l = ok (drop offset l)
page (some limit) offset l =
    if nat_eq limit 0 then err bad_limit else ok (take (min limit 500) (drop offset l))

-- the members of a group in a payload
abbrev pub member_ids : GroupPayload → List String
member_ids payload = set_of (printed_texts payload.members)

abbrev pub memberships : String → List String → List Membership
memberships id [] = []
memberships id (m ∷ l) = record { group_id = id; user_id = m } ∷ memberships id l

abbrev pub Storing : Type 0 → Type 0 → Type 0
Storing V A = Exec IdentityError (IdentityTables V) A

abbrev pub group_of_row : GroupRow → List String → ScimGroup
group_of_row g members = record {
  id = g.id;
  display_name = g.display_name;
  members = members;
  external_id = g.external_id;
}
