-- ===== src/Auth/Verify/Login.antt =====
-- The login endpoint and the tokens that it gives (auth.py, `login` and `create_access_token`).
use centralized_hvac_system.Prelude.{
  ℕ, ◌+◌, ◌*◌, ◌/◌, String, ◌≡◌, refl, sym, ap, false, Option, none, some, List, ◌==◌, eq_iff,
  if◌then◌else◌, leb, Bool-cases, inl, inr,
}
use centralized_hvac_system.Prelude.Result.{ok, raised, jwt_error, http_error}
use centralized_hvac_system.Dict.{lookup}
use centralized_hvac_system.Auth.Access.{TokenPayload, permissions_of, from_payload}
use centralized_hvac_system.Auth.Verify.{
  Crypto, AuthState, Credentials, verify_jwt, verified, by_bearer, identify, log_in,
  create_access_token, user_store, login, jwt_expire_minutes,
}

-- What `jose` documents: what `encode` signs, `decode` gives back until its expiry time is over.
pub record IsJwt {T : Type 0} (crypto : Crypto T) : Type 0 where
  pub decode-encode :
      (t : ℕ) (p : TokenPayload)
      → crypto.decode t (crypto.encode p) ≡ (if leb t p.exp then ok p else raised jwt_error)

abbrev pub bearer_of : {T : Type 0} → T → Credentials T
bearer_of token = record { bearer = some ("bearer", token); api_key = none }

module _ {Z T : Type 0} (crypto : Crypto T) (laws : IsJwt crypto) where
  verify_jwt-encode :
      (p : TokenPayload) (s : AuthState Z)
      → verify_jwt crypto (crypto.encode p) s
        ≡ (if leb (s.now / 1000) p.exp then ok (from_payload p) else raised (http_error 401))
  unfolding verify_jwt verified
  verify_jwt-encode p s =
      let signed = laws.decode-encode (s.now / 1000) p in
      elim (Bool-cases (leb (s.now / 1000) p.exp)) [
        | inl fresh ↦ rw signed (rw fresh refl)
        | inr old ↦ rw signed (rw old refl)
      ]

  -- `log_in` returned: its entry was there, with the password.
  log_in-eq :
      (username password : String) (token : T) (expires_in : ℕ) (o : Option (String × List String))
      (s s' : AuthState Z)
      → log_in crypto username password o s ≡ (ok (token, expires_in), s')
      → (roles : List String) × (o ≡ some (password, roles))
        × (token ≡ (create_access_token crypto username roles none false s).0)
        × (expires_in ≡ jwt_expire_minutes * 60)
  unfolding log_in
  log_in-eq username password token expires_in none s s' h = absurd (cc)
  log_in-eq username password token expires_in (some (expected, roles)) s s' h =
      elim (Bool-cases (expected == password)) [
        | inl same ↦
            let given : T × ℕ = (
              (create_access_token crypto username roles none false s).0,
              jwt_expire_minutes * 60,
            ) in
            let read : T × ℕ = (token, expires_in) in
            let answer : ok given ≡ ok read = ap (λ r. r.0) (rw same at h) in
            let parts : given ≡ read = cc in
            (
              roles,
              ap (λ p. some (p, roles)) ((eq_iff expected password).0 same),
              sym (ap (λ p. p.0) parts),
              sym (ap (λ p. p.1) parts),
            )
        | inr other ↦ absurd (cc)
      ]

  -- When `login` answers with a token, the password is that of the store, and the token, given as a
  -- bearer token any time later, names the user with the roles of the store and their permissions
  -- until as many seconds after the login as the answer says, and gets a 401 afterwards. Times are
  -- compared in whole seconds, and tokens decode as documented.
  pub login_lem :
      (username password : String) (token : T) (expires_in d : ℕ) (s s' : AuthState Z)
      → login crypto username password s ≡ (ok (token, expires_in), s')
      → (roles : List String) × (lookup username user_store ≡ some (password, roles))
        × (identify crypto (bearer_of token) (record s' { now = s.now + d }) ≡ (
            if leb ((s.now + d) / 1000) ((s.now + expires_in * 1000) / 1000)
            then ok (record {
              id = username;
              roles = roles;
              permissions = permissions_of roles;
              is_service = false;
            })
            else raised (http_error 401)))
  unfolding login create_access_token identify by_bearer from_payload
  login_lem username password token expires_in d s s' h =
      let (roles, entry, signed, lifetime) =
        log_in-eq username password token expires_in (lookup username user_store) s s' h in
      let p : TokenPayload = record {
        sub = username;
        roles = roles;
        exp = (s.now + jwt_expire_minutes * 60000) / 1000;
        iat = s.now / 1000;
        jti = crypto.uuid s.identifiers;
        service = false;
      } in
      let verdict = verify_jwt-encode p (record s' { now = s.now + d }) in
      (roles, entry, rw (signed, lifetime) verdict)
