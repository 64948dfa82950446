-- ===== src/Auth/Access/Roles.antt =====
-- What the roles of auth.py may do.
use centralized_hvac_system.Prelude.{
  String, ◌≡◌, refl, ◌⊎◌, inl, inr, true, ◌||◌, List, [], ◌∷◌, ◌++◌, ◌==◌, arith, in_list,
  Bool-cases, ◌↔◌,
}
use centralized_hvac_system.Auth.Access.{
  role_permissions, permissions_of, AuthenticatedUser, has_permission,
}

-- One role of the list grants the scope.
unfoldable pub Grants : String → List String → Type 0
Grants scope [] = ⊥
Grants scope (role ∷ roles) = (in_list scope (role_permissions role) ≡ true) ⊎ Grants scope roles

in_list-append :
    (s : String) (xs ys : List String) → in_list s (xs ++ ys) ≡ in_list s xs || in_list s ys
in_list-append s [] ys = refl
in_list-append s (x ∷ xs) ys = ground (arith, in_list-append s xs ys)

permissions_of→Grants :
    (scope : String) (roles : List String)
    → in_list scope (permissions_of roles) ≡ true
    → Grants scope roles
unfolding permissions_of Grants
permissions_of→Grants scope [] h = cc
permissions_of→Grants scope (role ∷ roles) h =
    let split = in_list-append scope (role_permissions role) (permissions_of roles) in
    elim (Bool-cases (in_list scope (role_permissions role))) [
      | inl held ↦ inl held
      | inr other ↦ inr (permissions_of→Grants scope roles (ground arith))
    ]

Grants→permissions_of :
    (scope : String) (roles : List String)
    → Grants scope roles
    → in_list scope (permissions_of roles) ≡ true
unfolding permissions_of Grants
Grants→permissions_of scope [] h = absurd h
Grants→permissions_of scope (role ∷ roles) h =
    let split = in_list-append scope (role_permissions role) (permissions_of roles) in
    elim h [
      | inl held ↦ ground arith
      | inr rest ↦ let ih = Grants→permissions_of scope roles rest in ground arith
    ]

-- Only the role of an administrator holds every permission.
admin_only : (role : String) → in_list "admin:all" (role_permissions role) ≡ (role == "admin")
unfolding role_permissions
admin_only role = ground arith

unlimited :
    (roles : List String) → in_list "admin:all" (permissions_of roles) ≡ in_list "admin" roles
unfolding permissions_of
unlimited [] = refl
unlimited (role ∷ roles) = ground (
  arith,
  in_list-append "admin:all" (role_permissions role) (permissions_of roles),
  admin_only role,
  unlimited roles,
)

-- Who may do what the scope names: whom a role grants it, and an administrator.
abbrev pub May : String → List String → Type 0
May scope roles = Grants scope roles ⊎ (in_list "admin" roles ≡ true)

pub has_permission-May :
    (scope : String) (user : AuthenticatedUser)
    → user.permissions ≡ permissions_of user.roles
    → (has_permission user scope ≡ true) ↔ May scope user.roles
unfolding has_permission
has_permission-May scope user h =
    let all = unlimited user.roles in
    let split = permissions_of→Grants scope user.roles in
    let join = Grants→permissions_of scope user.roles in
    rw h (
      (
        λ may. elim (Bool-cases (in_list scope (permissions_of user.roles))) [
          | inl held ↦ inl (split held)
          | inr other ↦ inr (ground arith)
        ],
        λ may. elim may [
          | inl granted ↦ let held = join granted in ground arith
          | inr admin ↦ ground arith
        ],
      ))
