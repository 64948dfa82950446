-- ===== src/Auth/Access.antt =====
-- Roles, permissions and users (auth.py, `ROLE_PERMISSIONS` and `AuthenticatedUser`).
pub mod Roles
use centralized_hvac_system.Prelude.{
  ℕ, String, Bool, true, false, ◌||◌, Option, none, some, List, [], ◌∷◌, ◌++◌, ◌==◌, if◌then◌else◌,
  in_list,
}

-- The permissions of a role; a role that the matrix does not name has none.
unfoldable pub role_permissions : String → List String
role_permissions role =
    if role == "admin"
    then "units:read" ∷ "units:write" ∷ "units:delete" ∷ "commands:write" ∷ "alerts:read"
      ∷ "alerts:write" ∷ "zones:read" ∷ "zones:write" ∷ "rules:write" ∷ "twins:read"
      ∷ "telemetry:read" ∷ "admin:all" ∷ []
    else if role == "operator"
    then "units:read" ∷ "units:write" ∷ "commands:write" ∷ "alerts:read" ∷ "alerts:write"
      ∷ "zones:read" ∷ "twins:read" ∷ "telemetry:read" ∷ []
    else if role == "viewer"
    then "units:read" ∷ "alerts:read" ∷ "zones:read" ∷ "twins:read" ∷ "telemetry:read" ∷ []
    else if role == "device"
    then "telemetry:write" ∷ "heartbeat:write" ∷ []
    else if role == "service"
    then "units:read" ∷ "units:write" ∷ "commands:write" ∷ "alerts:write" ∷ "twins:read"
      ∷ "twins:write" ∷ "telemetry:read" ∷ []
    else []

-- The loop over the roles that fills the set; a set is the list of what was put in.
unfoldable pub permissions_of : List String → List String
permissions_of [] = []
permissions_of (role ∷ roles) = role_permissions role ++ permissions_of roles

pub record TokenPayload : Type 0 where
  pub sub : String
  pub roles : List String
  pub exp : ℕ
  pub iat : ℕ
  pub jti : String
  pub service : Bool

pub record AuthenticatedUser : Type 0 where
  pub id : String
  pub roles : List String
  pub permissions : List String
  pub is_service : Bool

-- `AuthenticatedUser.from_payload`
unfoldable pub from_payload : TokenPayload → AuthenticatedUser
from_payload p = record {
  id = p.sub;
  roles = p.roles;
  permissions = permissions_of p.roles;
  is_service = p.service;
}

-- `AuthenticatedUser.has_permission`
unfoldable pub has_permission : AuthenticatedUser → String → Bool
has_permission user scope = in_list scope user.permissions || in_list "admin:all" user.permissions
