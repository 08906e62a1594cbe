-- ===== src/Identity/Scim.antt =====
-- `SCIMUser` and `SCIMGroup` of enterprise/identity.py, and what `SCIMDirectory` reads from a request.
use agent_roi.Base.{
  String, Bool, true, Option, none, some, List, [], ◌∷◌, ◌==◌, filter, not, if◌then◌else◌,
}
use agent_roi.Base.Text.{strip, is_blank, is_empty}
use agent_roi.Result.{Exec}
use agent_roi.Identity.Principal.{IdentityError, adjoin, union, member}

-- An entry of the list of addresses or of members: a text, a mapping with a text at `value`, or
-- anything else, with what `str` prints of it or of its `value`.
pub data Item : Type 0 where
  plain valued : String → Item
  other : String → Item

-- The texts of such a list that are not blank.
abbrev pub item_texts : List Item → List String
item_texts [] = []
item_texts (plain t ∷ l) = let rest = item_texts l in if is_blank t then rest else strip t ∷ rest
item_texts (valued t ∷ l) = let rest = item_texts l in if is_blank t then rest else strip t ∷ rest
item_texts (other printed ∷ l) = item_texts l

-- What a request says of a user: the core fields, which may be missing, and the others.
pub record UserPayload (V : Type 0) : Type 0 where
  pub id : Option String
  pub user_name : Option String
  pub active : Option Bool
  pub display_name : Option String
  pub emails : List Item
  pub external_id : Option String
  pub attributes : V

pub record GroupPayload : Type 0 where
  pub id : Option String
  pub display_name : Option String
  pub members : List Item
  pub external_id : Option String

pub record ScimUser (V : Type 0) : Type 0 where
  pub id : String
  pub user_name : String
  pub active : Bool
  pub display_name : String
  pub emails : List String
  pub external_id : String
  pub attributes : V

pub record ScimGroup : Type 0 where
  pub id : String
  pub display_name : String
  pub members : List String
  pub external_id : String

pub record Directory (V : Type 0) : Type 0 where
  pub users : List (ScimUser V)
  pub groups : List ScimGroup

abbrev pub or_empty : Option String → String
or_empty none = ""
or_empty (some t) = t

abbrev pub or_true : Option Bool → Bool
or_true none = true
or_true (some b) = b

-- `str(payload.get("id") or uuid.uuid4())`; `fresh` is drawn at random
abbrev pub id_or : String → Option String → String
id_or fresh none = fresh
id_or fresh (some t) = if is_empty t then fresh else t

-- `set(…)`
abbrev pub set_of : List String → List String
set_of [] = []
set_of (x ∷ l) = adjoin x (set_of l)

abbrev pub group_id : String → ScimGroup → Bool
group_id id g = g.id == id

abbrev pub group_name : String → ScimGroup → Bool
group_name name g = g.display_name == name

abbrev pub without : String → ScimGroup → ScimGroup
without id g = record g { members = filter (λ m. not (m == id)) g.members }

-- the names of the groups of a user
abbrev pub groups_of : String → List ScimGroup → List String
groups_of id [] = []
groups_of id (g ∷ l) =
    let rest = groups_of id l in if member id g.members then adjoin g.display_name rest else rest

abbrev pub mapped_roles : (String → List String) → List String → List String
mapped_roles role_mapping [] = []
mapped_roles role_mapping (g ∷ l) = union (set_of (role_mapping g)) (mapped_roles role_mapping l)

abbrev pub group_of : String → GroupPayload → ScimGroup
group_of fresh payload = record {
  id = id_or fresh payload.id;
  display_name = strip (or_empty payload.display_name);
  members = set_of (item_texts payload.members);
  external_id = or_empty payload.external_id;
}

abbrev pub user_of : {V : Type 0} → String → UserPayload V → ScimUser V
user_of fresh payload = record {
  id = id_or fresh payload.id;
  user_name = strip (or_empty payload.user_name);
  active = or_true payload.active;
  display_name = or_empty payload.display_name;
  emails = item_texts payload.emails;
  external_id = or_empty payload.external_id;
  attributes = payload.attributes;
}

abbrev pub user_id : {V : Type 0} → String → ScimUser V → Bool
user_id id u = u.id == id

abbrev pub user_name_is : {V : Type 0} → String → ScimUser V → Bool
user_name_is name u = u.user_name == name

abbrev pub Directing : Type 0 → Type 0 → Type 0
Directing V A = Exec IdentityError (Directory V) A
