-- ===== src/Authentication.antt =====
-- services/authentication/authentication_service_impt.go and
-- controller/authentication_controller.go: the login with a token of Google. The validation by
-- Google, the signing of a token and the binding of gin are parameters; `now` is the clock reading.
pub mod Tokens
use Prim.Native.Nat.{◌*◌, ◌/◌}
use r2_notify_server.Prelude.{
  ℕ, String, ◌≡◌, ◌+◌, ◌-◌, ◌≤◌, ◌<◌, true, Option, none, some, Result, ok, err, Error, other,
}
use r2_notify_server.Models.{Time}
use r2_notify_server.Data.{GoogleAuthRequest, UserInfo}
use r2_notify_server.Json.{Bytes}
use r2_notify_server.Config.{Environment, load_config}
use r2_notify_server.Utils.{Jwt, SigningMethod, hmac, Token}

-- A claim of a token is an `interface{}`; a claim that is not there is nil.
pub data Claim : Type 0 where
  text : String → Claim
  no_text : Claim

pub record GooglePayload : Type 0 where
  pub subject : String
  pub claims : String → Claim

-- idtoken.Validate, on a token and an audience.
pub record Google : Type 0 where
  pub validate : String → String → Result GooglePayload

-- jwt.MapClaims with the claims that the program sets; `exp` is in seconds from the start of 1970.
pub record MapClaims : Type 0 where
  pub sub : String
  pub email : String
  pub name : String
  pub exp : ℕ

-- jwt.NewWithClaims, and SignedString with a secret.
pub record Signer : Type 0 where
  pub signed_string : SigningMethod → MapClaims → String → Result String

-- The seconds from the zero time to the start of 1970.
abbrev pub epoch : ℕ
epoch = 62135596800

abbrev pub second : Time
second = 1000000000

-- time.Time.Unix, for a time from 1970 on.
abbrev pub unix : Time → ℕ
unix t = t / second - epoch

-- What the two halves of the library are documented to do together, where `at` is the parser at a
-- time of the clock: a token that was signed with the secret that the key function gives is valid
-- before it expires, and an error from then on.
pub record LawfulSigner (signer : Signer) (at : Time → Jwt) : Type 0 where
  pub accepts :
      (claims : MapClaims) (secret signed : String) (key : SigningMethod → Result String)
      (now : Time)
      → signer.signed_string hmac claims secret ≡ ok signed
      → key hmac ≡ ok secret
      → now < (epoch + claims.exp) * second
      → (at now).parse_with_claims signed key
        ≡ ok (record { method = hmac; valid = true; subject = some claims.sub })
  pub expires :
      (claims : MapClaims) (secret signed : String) (key : SigningMethod → Result String)
      (now : Time)
      → signer.signed_string hmac claims secret ≡ ok signed
      → key hmac ≡ ok secret
      → (epoch + claims.exp) * second ≤ now
      → (at now).parse_with_claims signed key
        ≡ err (other "token has invalid claims: token is expired")

-- A Go function that may panic.
pub data Outcome (A : Type 0) : Type 0 where
  done : A → Outcome A
  failed : Error → Outcome A
  panicked : Outcome A

-- The type assertion `.(string)`.
abbrev pub with_text : {A : Type 0} → Claim → (String → Outcome A) → Outcome A
with_text (text s) next = next s
with_text no_text next = panicked

unfoldable pub claims_for : UserInfo → Time → MapClaims
claims_for user now = record {
  sub = user.id;
  email = user.email;
  name = user.name;
  exp = unix (now + 24 * 60 * 60 * second);
}

-- The answers of the controller; gin answers a panic by itself.
pub data AuthResponse : Type 0 where
  bad_request : AuthResponse
  unauthorized : Error → AuthResponse
  logged_in : (jwt : String) → UserInfo → AuthResponse
  panicking : AuthResponse

abbrev pub answer : Outcome (UserInfo × String) → AuthResponse
answer (done p) = logged_in p.1 p.0
answer (failed e) = unauthorized e
answer panicked = panicking

module _ (google : Google) (signer : Signer) (env : Environment) where
  -- GoogleAuthenticate behind its call of SignedString.
  abbrev pub issued : UserInfo → Result String → Outcome (UserInfo × String)
  issued user (err e) = failed (other "Token generation failed")
  issued user (ok signed) = done (user, signed)

  -- GoogleAuthenticate behind the reading of the claims.
  unfoldable pub issue : UserInfo → Time → Outcome (UserInfo × String)
  unfolding claims_for
  issue user now =
      issued user (signer.signed_string hmac (claims_for user now) (load_config env).jwt_secret)

  -- GoogleAuthenticate behind its call of Validate.
  unfoldable pub authenticate_payload : Result GooglePayload → Time → Outcome (UserInfo × String)
  unfolding issue
  authenticate_payload (err e) now = failed (other "Invalid Google token")
  authenticate_payload (ok payload) now = with_text (payload.claims "name") λ name.
      with_text (payload.claims "email") λ email. with_text (payload.claims "picture") λ avatar.
        issue (record { id = payload.subject; name = name; email = email; avatar = avatar }) now

  unfoldable pub google_authenticate : String → Time → Outcome (UserInfo × String)
  unfolding authenticate_payload
  google_authenticate token now =
      authenticate_payload (google.validate token (load_config env).google_client_id) now

  -- GoogleAuthHandler behind its call of ShouldBindJSON.
  unfoldable pub handle_bound : Result GoogleAuthRequest → Time → AuthResponse
  handle_bound (err e) now = bad_request
  handle_bound (ok request) now = answer (google_authenticate request.token now)

  unfoldable pub google_auth_handler :
      (Bytes → Result GoogleAuthRequest) → Bytes → Time → AuthResponse
  unfolding handle_bound
  google_auth_handler bind_json body now = handle_bound (bind_json body) now
