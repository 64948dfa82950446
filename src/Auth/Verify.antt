-- ===== src/Auth/Verify.antt =====
-- The verification of a request's identity (auth.py): tokens, API keys, `get_current_user`, the
-- dependencies on a role and on a permission, and the login endpoint.
pub mod Checks
pub mod Login
use centralized_hvac_system.Prelude.{
  ℕ, ◌+◌, ◌*◌, ◌/◌, String, Bool, true, false, not, ◌&&◌, ◌||◌, Option, none, some, List, [], ◌∷◌,
  ◌==◌, if◌then◌else◌, or_else, in_list, nat_eq,
}
use centralized_hvac_system.Prelude.Result.{
  Result, ok, raised, Exception, jwt_error, http_error, Exec, and_then, ◌>>=◌,
}
use centralized_hvac_system.Dict.{Dict, lookup, insert}
use centralized_hvac_system.Auth.Access.{
  TokenPayload, AuthenticatedUser, permissions_of, from_payload, has_permission,
}
use centralized_hvac_system.Auth.Zset.{Zset}
use centralized_hvac_system.Auth.Limiter.{check, default_rate, default_window}

-- What the module takes from outside: `jwt.encode` and `jwt.decode` with its validation, at a time
-- in seconds, with the configured secret and algorithm, where only they read what a token `T` is; the
-- digest; uuid4.
pub record Crypto (T : Type 0) : Type 0 where
  pub encode : TokenPayload → T
  pub decode : ℕ → T → Result TokenPayload
  pub sha256 : String → String
  pub uuid : ℕ → String

-- `keys` is `_API_KEY_STORE`; `limited` says that a rate limiter was set; `now` is the time in
-- milliseconds, `identifiers` counts the identifiers drawn.
pub record AuthState (Z : Type 0) : Type 0 where
  pub keys : Dict (String × List String)
  pub limited : Bool
  pub zset : Z
  pub now : ℕ
  pub identifiers : ℕ

-- What a request carries: the scheme, in lower case, with the credentials, and the X-API-Key header.
pub record Credentials (T : Type 0) : Type 0 where
  pub bearer : Option (String × T)
  pub api_key : Option String

-- The `except JWTError` of `_verify_jwt`, and its last line.
unfoldable pub verified : Result TokenPayload → Result AuthenticatedUser
verified (ok payload) = ok (from_payload payload)
verified (raised jwt_error) = raised (http_error 401)
verified (raised e) = raised e

-- The entry of the key in the store.
unfoldable pub known_key : Option (String × List String) → Result AuthenticatedUser
known_key none = raised (http_error 401)
known_key (some (user_id, roles)) = ok (record {
  id = user_id;
  roles = roles;
  permissions = permissions_of roles;
  is_service = in_list "service" roles;
})

module _ {Z T : Type 0} (crypto : Crypto T) where
  -- `register_api_key`
  unfoldable pub register_api_key :
      String → String → List String → AuthState Z → String × AuthState Z
  register_api_key raw_key user_id roles s =
      let key_hash = crypto.sha256 raw_key in
      (key_hash, record s { keys = insert key_hash (user_id, roles) s.keys })

  -- `_verify_jwt`
  unfoldable pub verify_jwt : T → AuthState Z → Result AuthenticatedUser
  verify_jwt token s = verified (crypto.decode (s.now / 1000) token)

  -- `_verify_api_key`
  unfoldable pub verify_api_key : String → AuthState Z → Result AuthenticatedUser
  verify_api_key raw_key s = known_key (lookup (crypto.sha256 raw_key) s.keys)

  -- The first half of `get_current_user`: an empty key counts as none.
  unfoldable pub by_api_key : Option String → AuthState Z → Result AuthenticatedUser
  by_api_key none s = raised (http_error 401)
  by_api_key (some key) s = if key == "" then raised (http_error 401) else verify_api_key key s

  unfoldable pub by_bearer :
      Option (String × T) → Option String → AuthState Z → Result AuthenticatedUser
  by_bearer none api_key s = by_api_key api_key s
  by_bearer (some (scheme, token)) api_key s =
      if scheme == "bearer" then verify_jwt token s else by_api_key api_key s

  unfoldable pub identify : Credentials T → AuthState Z → Result AuthenticatedUser
  identify c s = by_bearer c.bearer c.api_key s

-- `any(r in user.roles for r in required_roles)`
unfoldable pub has_role : List String → AuthenticatedUser → Bool
has_role [] user = false
has_role (r ∷ required) user = in_list r user.roles || has_role required user

module _ {Z : Type 0} where
  -- `_rate_limiter and not user.is_service and Roles.ADMIN not in user.roles`
  unfoldable pub is_counted : AuthenticatedUser → AuthState Z → Bool
  is_counted user s = s.limited && not user.is_service && not (in_list "admin" user.roles)

  -- The `_check` of `require_role`.
  unfoldable pub permit_role :
      List String → AuthenticatedUser → Exec (AuthState Z) AuthenticatedUser
  permit_role required user s =
      (if has_role required user then ok user else raised (http_error 403), s)

  -- The `_check` of `require_permission`.
  unfoldable pub permit : String → AuthenticatedUser → Exec (AuthState Z) AuthenticatedUser
  permit scope user s = (if has_permission user scope then ok user else raised (http_error 403), s)

module _ {Z T : Type 0} ⦃zs : Zset Z⦄ (crypto : Crypto T) where
  -- The second half: the rate limit.
  unfoldable pub admit : AuthenticatedUser → Exec (AuthState Z) AuthenticatedUser
  unfolding is_counted
  admit user s =
      let (allowed, zset') =
        check crypto.uuid default_rate default_window user.id s.now s.identifiers s.zset in
      let s' = record s { zset = zset'; identifiers = s.identifiers + 1 } in
      if is_counted user s
      then (if allowed then ok user else raised (http_error 429), s')
      else (ok user, s)

  -- `get_current_user`
  unfoldable pub get_current_user : Credentials T → Exec (AuthState Z) AuthenticatedUser
  get_current_user c s = and_then (identify crypto c s, s) admit

  -- `require_role(*required_roles)`
  unfoldable pub require_role : List String → Credentials T → Exec (AuthState Z) AuthenticatedUser
  require_role required c s = and_then (get_current_user c s) (permit_role required)

  -- `require_permission(scope)`
  unfoldable pub require_permission : String → Credentials T → Exec (AuthState Z) AuthenticatedUser
  require_permission scope c s = and_then (get_current_user c s) (permit scope)

-- JWT_EXPIRE_MINUTES of the settings, as config.py has it.
abbrev pub jwt_expire_minutes : ℕ
jwt_expire_minutes = 60

-- `_USER_STORE`
unfoldable pub user_store : Dict (String × List String)
user_store =
    ("admin", ("admin_password_changeme", "admin" ∷ []))
    ∷ ("operator", ("operator_password_changeme", "operator" ∷ []))
    ∷ ("viewer", ("viewer_password_changeme", "viewer" ∷ []))
    ∷ []

module _ {Z T : Type 0} (crypto : Crypto T) where
  -- `create_access_token`; the lifetime is in milliseconds, and no lifetime counts as none given
  unfoldable pub create_access_token :
      String → List String → Option ℕ → Bool → AuthState Z → T × AuthState Z
  create_access_token subject roles expires_delta is_service s =
      let default_ms = jwt_expire_minutes * 60000 in
      let given = or_else expires_delta 0 in
      let lifetime = if nat_eq given 0 then default_ms else given in
      (
        crypto.encode (record {
          sub = subject;
          roles = roles;
          exp = (s.now + lifetime) / 1000;
          iat = s.now / 1000;
          jti = crypto.uuid s.identifiers;
          service = is_service;
        }),
        record s { identifiers = s.identifiers + 1 },
      )

  -- `login` with the entry of the user: the token and its lifetime in seconds
  unfoldable pub log_in :
      String → String → Option (String × List String) → Exec (AuthState Z) (T × ℕ)
  log_in username password none s = (raised (http_error 401), s)
  log_in username password (some (expected, roles)) s =
      let (token, s') = create_access_token username roles none false s in
      if expected == password
      then (ok (token, jwt_expire_minutes * 60), s')
      else (raised (http_error 401), s)

  -- `login`
  unfoldable pub login : String → String → Exec (AuthState Z) (T × ℕ)
  login username password s = log_in username password (lookup username user_store) s
