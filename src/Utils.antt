-- ===== src/Utils.antt =====
-- utils/utils.go. The JWT library is a parameter.
pub mod Tokens
use r2_notify_server.Prelude.{
  String, ◌≡◌, Bool, Option, none, some, List, map, Result, ok, err, unexpected_signing_method,
  invalid_token, ◌>>=◌, ◌==◌, if◌then◌else◌,
}
use r2_notify_server.Text.{split_comma, trim_space}
use r2_notify_server.Models.{UserId}

abbrev pub default_origins : String
default_origins = "*"

unfoldable pub process_allowed_origins : String → List String
process_allowed_origins origins =
    map trim_space (split_comma (if origins == "*" then default_origins else origins))

-- Whether the method of a token is a *jwt.SigningMethodHMAC.
pub data SigningMethod : Type 0 where
  hmac : SigningMethod
  other_method : SigningMethod

-- A parsed token: its method, whether it is valid, and its subject if its claims are
-- *jwt.RegisteredClaims.
pub record Token : Type 0 where
  pub method : SigningMethod
  pub valid : Bool
  pub subject : Option UserId

-- jwt.ParseWithClaims, given a text and the function that gives the key for a method.
pub record Jwt : Type 0 where
  pub parse_with_claims : String → (SigningMethod → Result String) → Result Token

-- A token that parses has had a key for its method.
pub record LawfulJwt (jwt : Jwt) : Type 0 where
  pub keyed :
      (text : String) (key : SigningMethod → Result String) (t : Token)
      → jwt.parse_with_claims text key ≡ ok t
      → (secret : String) × (key t.method ≡ ok secret)

unfoldable pub key_for : String → SigningMethod → Result String
key_for secret hmac = ok secret
key_for secret other_method = err unexpected_signing_method

-- The test on the claims and on `Valid`.
unfoldable pub subject_of : Token → Result UserId
subject_of t = elim t.subject [
  | none ↦ err invalid_token
  | some user ↦ if t.valid then ok user else err invalid_token
]

unfoldable pub validate_token : Jwt → String → String → Result UserId
unfolding key_for subject_of
validate_token jwt token secret = do t ← jwt.parse_with_claims token (key_for secret); subject_of t
