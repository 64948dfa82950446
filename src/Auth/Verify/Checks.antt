-- ===== src/Auth/Verify/Checks.antt =====
-- The dependency on a permission (auth.py, `require_permission`), from the request to the answer.
use mathlib.Core.Path.{subst}
use centralized_hvac_system.Prelude.{
  String, ◌≡◌, refl, sym, ap, ◌∙◌, ◌↔◌, true, Option, none, some, List, ◌==◌, ◌/◌, Bool-cases, inl,
  inr,
}
use centralized_hvac_system.Prelude.Result.{
  Result, ok, raised, key_error, value_error, type_error, validation_error, jwt_error,
  integrity_error, runtime_error, http_error, and_then-eq-ok, and_then_returns,
}
use centralized_hvac_system.Dict.{lookup}
use centralized_hvac_system.Auth.Access.{
  TokenPayload, AuthenticatedUser, permissions_of, from_payload, has_permission,
}
use centralized_hvac_system.Auth.Access.Roles.{May, has_permission-May}
use centralized_hvac_system.Auth.Zset.{Zset}
use centralized_hvac_system.Auth.Limiter.{check, default_rate, default_window}
use centralized_hvac_system.Auth.Verify.{
  Crypto, AuthState, Credentials, verify_jwt, verify_api_key, verified, known_key, by_api_key,
  by_bearer, identify, admit, is_counted, permit, get_current_user, require_permission,
}

-- The permissions are those of the roles.
abbrev pub IsDerived : AuthenticatedUser → Type 0
IsDerived user = user.permissions ≡ permissions_of user.roles

abbrev AllDerived : Result AuthenticatedUser → Type 0
AllDerived (ok user) = IsDerived user
AllDerived (raised e) = Unit

verified-AllDerived : (r : Result TokenPayload) → AllDerived (verified r)
unfolding verified from_payload
verified-AllDerived (ok p) = refl
verified-AllDerived (raised e) = elim e as (λ e. AllDerived (verified (raised e))) [
  | key_error ↦ tt
  | value_error ↦ tt
  | type_error ↦ tt
  | validation_error ↦ tt
  | jwt_error ↦ tt
  | integrity_error ↦ tt
  | runtime_error ↦ tt
  | http_error c ↦ tt
]

known_key-AllDerived : (o : Option (String × List String)) → AllDerived (known_key o)
unfolding known_key
known_key-AllDerived none = tt
known_key-AllDerived (some entry) = refl

module _ {Z T : Type 0} (crypto : Crypto T) where
  by_api_key-AllDerived : (k : Option String) (s : AuthState Z) → AllDerived (by_api_key crypto k s)
  unfolding by_api_key verify_api_key
  by_api_key-AllDerived none s = tt
  by_api_key-AllDerived (some key) s = elim (Bool-cases (key == "")) [
    | inl empty ↦ rw empty tt
    | inr given ↦ rw given (known_key-AllDerived (lookup (crypto.sha256 key) s.keys))
  ]

  by_bearer-AllDerived :
      (b : Option (String × T)) (k : Option String) (s : AuthState Z)
      → AllDerived (by_bearer crypto b k s)
  unfolding by_bearer verify_jwt
  by_bearer-AllDerived none k s = by_api_key-AllDerived k s
  by_bearer-AllDerived (some (scheme, token)) k s = elim (Bool-cases (scheme == "bearer")) [
    | inl is_bearer ↦ rw is_bearer (verified-AllDerived (crypto.decode (s.now / 1000) token))
    | inr other ↦ rw other (by_api_key-AllDerived k s)
  ]

  identify-IsDerived :
      (c : Credentials T) (s : AuthState Z) (user : AuthenticatedUser)
      → identify crypto c s ≡ ok user
      → IsDerived user
  unfolding identify
  identify-IsDerived c s user h = subst AllDerived h (by_bearer-AllDerived c.bearer c.api_key s)

module _ {Z : Type 0} where
  permit-eq :
      (scope : String) (u user : AuthenticatedUser) (s : AuthState Z)
      → (permit scope u s).0 ≡ ok user
      → (u ≡ user) × (has_permission user scope ≡ true)
  unfolding permit
  permit-eq scope u user s h = elim (Bool-cases (has_permission u scope)) [
    | inl held ↦ let same : u ≡ user = cc in (same, cc)
    | inr missing ↦ cc
  ]

  permit-held :
      (scope : String) (u : AuthenticatedUser) (s : AuthState Z)
      → has_permission u scope ≡ true
      → (permit scope u s).0 ≡ ok u
  unfolding permit
  permit-held scope u s h = rw h refl

module _ {Z T : Type 0} ⦃zs : Zset Z⦄ (crypto : Crypto T) where
  admit-eq : (v u : AuthenticatedUser) (s : AuthState Z) → (admit crypto v s).0 ≡ ok u → v ≡ u
  unfolding admit
  admit-eq v u s h = elim (Bool-cases (is_counted v s)) [
    | inl counted ↦
        elim (Bool-cases
          (check crypto.uuid default_rate default_window v.id s.now s.identifiers s.zset).0) [
            | inl allowed ↦ cc
            | inr refused ↦ cc
          ]
    | inr free ↦ cc
  ]

  -- `require_permission` gives a user exactly when the credentials name that user, the rate limit
  -- admits it, and the scope is granted by one of its roles or it is an administrator.
  pub require_permission_lem :
      (scope : String) (c : Credentials T) (s : AuthState Z) (user : AuthenticatedUser)
      → ((require_permission crypto scope c s).0 ≡ ok user) ↔ (
          (identify crypto c s ≡ ok user)
          × ((admit crypto user s).0 ≡ ok user)
          × May scope user.roles)
  unfolding require_permission get_current_user
  require_permission_lem scope c s user = (
    λ h.
        let (u, e, decided) = and_then-eq-ok (get_current_user crypto c s) (permit scope) user h in
        let (v, named, admitted) = and_then-eq-ok (identify crypto c s, s) (admit crypto) u e in
        let (same, may) =
          permit-eq scope u user (get_current_user crypto c s).1
            (sym (ap (λ r. r.0) decided) ∙ h) in
        let same' = admit-eq v u s (sym (ap (λ r. r.0) admitted) ∙ e) in
        let named' : identify crypto c s ≡ ok user = cc in
        (
          named',
          cc,
          (has_permission-May scope user (identify-IsDerived crypto c s user named')).0 may,
        ),
    λ (named, admitted, may).
        let gcu = and_then_returns (identify crypto c s, s) (admit crypto) user named in
        let all =
          and_then_returns (get_current_user crypto c s) (permit scope) user
            (ap (λ r. r.0) gcu ∙ admitted) in
        let held =
          (has_permission-May scope user (identify-IsDerived crypto c s user named)).1 may in
        ap (λ r. r.0) all ∙ permit-held scope user (get_current_user crypto c s).1 held,
  )
