-- ===== src/Permissions/Engine.antt =====
-- The engine of go/controlplane/permissions/engine.go. A permission is the list of its bytes.
use purser.Prelude.{
  Bool, true, false, ◌&&◌, ◌||◌, not, List, [], ◌∷◌, ◌++◌, if◌then◌else◌, ltb, ◌==◌,
}
use purser.Permissions.Text.{Text, text, text_eq, has_prefix, has_suffix, trim_suffix}

-- One round of the loop of Has: whether `p` ends it with true.
unfoldable pub matches : Text → Text → Bool
matches p required =
    text_eq p required
    || has_suffix p (text ":*") && has_prefix required (trim_suffix p (text "*"))
    || text_eq p (text "inference:*") && has_prefix required (text "inference:")

unfoldable pub has : List Text → Text → Bool
has [] required = false
has (p ∷ effective) required = matches p required || has effective required

unfoldable pub has_all : List Text → List Text → Bool
has_all effective [] = true
has_all effective (r ∷ required) =
    if not (has effective r) then false else has_all effective required

unfoldable pub has_any : List Text → List Text → Bool
has_any effective [] = false
has_any effective (r ∷ required) = if has effective r then true else has_any effective required

pub record BuiltinRole : Type 0 where
  pub id : Text
  pub name : Text
  pub permissions : List Text

abbrev pub platform_admin : BuiltinRole
platform_admin = record {
  id = text "platform_admin";
  name = text "Platform Administrator";
  permissions =
      text "platform:orgs:create"
      ∷ text "platform:orgs:delete"
      ∷ text "platform:pools:manage"
      ∷ text "platform:users:invite"
      ∷ text "org:teams:create"
      ∷ text "org:teams:delete"
      ∷ text "org:members:invite"
      ∷ text "org:members:remove"
      ∷ text "org:roles:create"
      ∷ text "org:roles:delete"
      ∷ text "org:pools:request"
      ∷ text "team:models:deploy"
      ∷ text "team:models:undeploy"
      ∷ text "team:keys:create"
      ∷ text "team:keys:revoke"
      ∷ text "team:members:view"
      ∷ text "team:members:invite"
      ∷ text "team:members:remove"
      ∷ text "team:metrics:view"
      ∷ text "team:approvals:view"
      ∷ text "team:approvals:review"
      ∷ text "inference:call"
      ∷ [];
}

abbrev pub org_admin : BuiltinRole
org_admin = record {
  id = text "org_admin";
  name = text "Organization Administrator";
  permissions =
      text "org:teams:create"
      ∷ text "org:teams:delete"
      ∷ text "org:members:invite"
      ∷ text "org:members:remove"
      ∷ text "org:roles:create"
      ∷ text "org:roles:delete"
      ∷ text "org:pools:request"
      ∷ text "team:models:deploy"
      ∷ text "team:models:undeploy"
      ∷ text "team:keys:create"
      ∷ text "team:keys:revoke"
      ∷ text "team:members:view"
      ∷ text "team:members:invite"
      ∷ text "team:members:remove"
      ∷ text "team:metrics:view"
      ∷ text "team:approvals:view"
      ∷ text "team:approvals:review"
      ∷ text "inference:call"
      ∷ [];
}

abbrev pub team_admin : BuiltinRole
team_admin = record {
  id = text "team_admin";
  name = text "Team Administrator";
  permissions =
      text "team:models:deploy"
      ∷ text "team:models:undeploy"
      ∷ text "team:keys:create"
      ∷ text "team:keys:revoke"
      ∷ text "team:members:view"
      ∷ text "team:members:invite"
      ∷ text "team:members:remove"
      ∷ text "team:metrics:view"
      ∷ text "team:approvals:view"
      ∷ text "team:approvals:review"
      ∷ text "inference:call"
      ∷ [];
}

abbrev pub developer : BuiltinRole
developer = record {
  id = text "developer";
  name = text "Developer";
  permissions =
      text "team:models:deploy"
      ∷ text "team:models:undeploy"
      ∷ text "team:keys:create"
      ∷ text "team:metrics:view"
      ∷ text "inference:call"
      ∷ [];
}

abbrev pub viewer : BuiltinRole
viewer = record {
  id = text "viewer";
  name = text "Viewer";
  permissions =
      text "team:members:view" ∷ text "team:metrics:view" ∷ text "team:approvals:view" ∷ [];
}

abbrev pub inference_only : BuiltinRole
inference_only = record {
  id = text "inference_only";
  name = text "Inference Only";
  permissions = text "inference:call" ∷ [];
}

abbrev pub system_roles : List BuiltinRole
system_roles = platform_admin ∷ org_admin ∷ team_admin ∷ developer ∷ viewer ∷ inference_only ∷ []

pub record Context : Type 0 where
  pub user_id : Text
  pub email : Text
  pub team_id : Text
  pub org_id : Text
  pub permissions : List Text
  pub is_org_admin : Bool
  pub is_platform_admin : Bool
  pub legacy_api_key_role : Text

-- the loop over SystemRoles(), with what follows the switch for a role that is missing
unfoldable pub role_permissions : Text → List BuiltinRole → List Text
role_permissions id [] = []
role_permissions id (r ∷ roles) =
    if text_eq r.id id then r.permissions else role_permissions id roles

unfoldable pub legacy_role_perms : Text → List Text
unfolding role_permissions text_eq
legacy_role_perms role =
    if text_eq role (text "admin")
    then role_permissions (text "platform_admin") system_roles
    else if text_eq role (text "viewer")
    then role_permissions (text "viewer") system_roles
    else if text_eq role (text "inference")
    then text "inference:call" ∷ []
    else []

unfoldable pub from_legacy_role : Text → Text → Context
unfolding legacy_role_perms
from_legacy_role key_id role = record {
  user_id = key_id;
  email = [];
  team_id = [];
  org_id = [];
  permissions = legacy_role_perms role;
  is_org_admin = false;
  is_platform_admin = text_eq role (text "admin");
  legacy_api_key_role = role;
}

-- the map `seen` and the slice `result`: what is in one is in the other
unfoldable pub contains : Text → List Text → Bool
contains p [] = false
contains p (q ∷ result) = text_eq q p || contains p result

unfoldable pub merge_set : List Text → List Text → List Text
merge_set [] result = result
merge_set (p ∷ ps) result =
    merge_set ps (if not (contains p result) then result ++ p ∷ [] else result)

unfoldable pub merge_sets : List (List Text) → List Text → List Text
merge_sets [] result = result
merge_sets (ps ∷ sets) result = merge_sets sets (merge_set ps result)

-- the order of Go strings, and sort.Strings
unfoldable pub text_le : Text → Text → Bool
text_le [] ys = true
text_le (x ∷ xs) [] = false
text_le (x ∷ xs) (y ∷ ys) = let rest = text_le xs ys in if x == y then rest else ltb x y

unfoldable pub insert_text : Text → List Text → List Text
insert_text p [] = p ∷ []
insert_text p (q ∷ qs) = if text_le p q then p ∷ q ∷ qs else q ∷ insert_text p qs

unfoldable pub sort_strings : List Text → List Text
sort_strings [] = []
sort_strings (p ∷ ps) = insert_text p (sort_strings ps)

unfoldable pub merge : List (List Text) → List Text
merge sets = sort_strings (merge_sets sets [])
