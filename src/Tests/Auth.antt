-- ===== src/Tests/Auth.antt =====
-- Authentication: a limiter of two requests a second, a login and a permission.
use Prim.Native.String.{count}
use text.Mathlib.TextLemmas.{length-append as count-append}
use centralized_hvac_system.Prelude.{
  ℕ, zero, suc, ◌+◌, ◌/◌, ◌≡◌, refl, ap, sym, ◌∙◌, ◌↔◌, true, false, String, some, List, [], ◌∷◌,
  arith, ◌==◌, eq_iff, ◌<>◌, leb, if◌then◌else◌,
}
use centralized_hvac_system.Prelude.Result.{ok, raised, jwt_error, http_error}
use centralized_hvac_system.Dict.{lookup}
use centralized_hvac_system.Auth.Access.{TokenPayload, AuthenticatedUser, permissions_of}
use centralized_hvac_system.Auth.Access.Roles.{May}
use centralized_hvac_system.Auth.Zset.{ZStore, zstore, ZStore-IsZset}
use centralized_hvac_system.Auth.Limiter.Window.{
  Event, wait, ask, answers, windowed, check_refines_windowed,
}
use centralized_hvac_system.Auth.Verify.{
  Crypto, AuthState, Credentials, register_api_key, identify, admit, require_permission, user_store,
  login,
}
use centralized_hvac_system.Auth.Verify.Checks.{require_permission_lem}
use centralized_hvac_system.Auth.Verify.Login.{IsJwt, bearer_of, login_lem}

-- Identifiers that never repeat.
abbrev marks : ℕ → String
marks zero = ""
marks (suc n) = "x" <> marks n

count-marks : (n : ℕ) → count (marks n) ≡ n
count-marks zero = refl
count-marks (suc n) = omega (arith, count-append "x" (marks n), count-marks n)

marks_unique : (i j : ℕ) → (marks i == marks j) ≡ true → i ≡ j
marks_unique i j h =
    sym (count-marks i) ∙ (ap count ((eq_iff (marks i) (marks j)).0 h) ∙ count-marks j)

abbrev visits : List Event
visits = ask "u1" ∷ ask "u1" ∷ ask "u2" ∷ ask "u1" ∷ wait 1500 ∷ ask "u1" ∷ []

abbrev no_entries : ZStore
no_entries = []

two_a_second : answers marks 2 1 visits 0 0 no_entries ≡ true ∷ true ∷ true ∷ false ∷ true ∷ []
unfolding answers centralized_hvac_system.Auth.Limiter.check lookup
    centralized_hvac_system.Dict.insert centralized_hvac_system.Auth.Limiter.forget_old
    centralized_hvac_system.Auth.Limiter.limit_key centralized_hvac_system.Auth.Zset.Sample.pass_all
two_a_second = refl

check_refines_windowed_example : answers marks 2 1 visits 0 0 no_entries ≡ windowed 2 1 visits 0 []
check_refines_windowed_example =
    check_refines_windowed ZStore-IsZset marks 2 1 marks_unique (omega arith) visits 0 0 no_entries
      (λ k. unfold lookup in refl)

-- Tokens that hold what they were made of.
abbrev crypto : Crypto TokenPayload
crypto = record {
  encode = λ p. p;
  decode = λ t p. if leb t p.exp then ok p else raised jwt_error;
  sha256 = λ s. "sha-" <> s;
  uuid = marks;
}

crypto-IsJwt : IsJwt crypto
crypto-IsJwt = record { decode-encode = λ t p. refl }

abbrev unlocked : AuthState ZStore
unlocked = record { keys = []; limited = true; zset = []; now = 5000000; identifiers = 0 }

abbrev token : TokenPayload
token = record {
  sub = "viewer";
  roles = "viewer" ∷ [];
  exp = 8600;
  iat = 5000;
  jti = "";
  service = false;
}

abbrev viewer : AuthenticatedUser
viewer = record {
  id = "viewer";
  roles = "viewer" ∷ [];
  permissions = permissions_of ("viewer" ∷ []);
  is_service = false;
}

login_lem_example :
    (roles : List String) × (lookup "viewer" user_store ≡ some ("viewer_password_changeme", roles))
    × (identify crypto
          (bearer_of token)
          (record unlocked { identifiers = 1; now = 5000000 + 3700000 })
        ≡ (if leb ((5000000 + 3700000) / 1000) ((5000000 + 3600000) / 1000)
            then ok (record viewer { roles = roles; permissions = permissions_of roles })
            else raised (http_error 401)))
unfolding login centralized_hvac_system.Auth.Verify.log_in lookup user_store
    centralized_hvac_system.Auth.Verify.create_access_token
login_lem_example =
    login_lem crypto crypto-IsJwt "viewer" "viewer_password_changeme" token 3600 3700000 unlocked
      (record unlocked { identifiers = 1 }) refl

require_permission_lem_example :
    ((require_permission crypto "alerts:read" (bearer_of token) unlocked).0 ≡ ok viewer) ↔ (
      (identify crypto (bearer_of token) unlocked ≡ ok viewer)
      × ((admit crypto viewer unlocked).0 ≡ ok viewer)
      × May "alerts:read" viewer.roles)
require_permission_lem_example =
    require_permission_lem crypto "alerts:read" (bearer_of token) unlocked viewer

viewer_reads : (require_permission crypto "alerts:read" (bearer_of token) unlocked).0 ≡ ok viewer
unfolding require_permission centralized_hvac_system.Auth.Verify.get_current_user identify
    centralized_hvac_system.Auth.Verify.by_bearer centralized_hvac_system.Auth.Verify.verify_jwt
    centralized_hvac_system.Auth.Verify.verified admit
    centralized_hvac_system.Auth.Access.from_payload centralized_hvac_system.Auth.Limiter.check
    lookup centralized_hvac_system.Dict.insert centralized_hvac_system.Auth.Limiter.forget_old
    centralized_hvac_system.Auth.Limiter.limit_key centralized_hvac_system.Auth.Verify.permit
    centralized_hvac_system.Auth.Access.has_permission permissions_of
    centralized_hvac_system.Auth.Access.role_permissions
    centralized_hvac_system.Auth.Verify.is_counted
viewer_reads = refl

viewer_commands_not :
    (require_permission crypto "commands:write" (bearer_of token) unlocked).0
    ≡ raised (http_error 403)
unfolding require_permission centralized_hvac_system.Auth.Verify.get_current_user identify
    centralized_hvac_system.Auth.Verify.by_bearer centralized_hvac_system.Auth.Verify.verify_jwt
    centralized_hvac_system.Auth.Verify.verified admit
    centralized_hvac_system.Auth.Access.from_payload centralized_hvac_system.Auth.Limiter.check
    lookup centralized_hvac_system.Dict.insert centralized_hvac_system.Auth.Limiter.forget_old
    centralized_hvac_system.Auth.Limiter.limit_key centralized_hvac_system.Auth.Verify.permit
    centralized_hvac_system.Auth.Access.has_permission permissions_of
    centralized_hvac_system.Auth.Access.role_permissions
    centralized_hvac_system.Auth.Verify.is_counted
viewer_commands_not = refl
