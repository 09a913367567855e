-- ===== src/Utils/Tokens.antt =====
-- What ValidateToken accepts.
use r2_notify_server.Prelude.{String, ◌≡◌, refl, Bool, true, false, Option, none, some, ok, >>=-ok}
use r2_notify_server.Models.{UserId}
use r2_notify_server.Utils.{
  Jwt, LawfulJwt, SigningMethod, hmac, other_method, Token, key_for, subject_of, validate_token,
}

keyed-hmac : (secret key : String) (m : SigningMethod) → key_for secret m ≡ ok key → m ≡ hmac
unfolding key_for
keyed-hmac secret key hmac h = refl
keyed-hmac secret key other_method h = cc

accepted :
    (claimed : Option UserId) (is_valid : Bool) (m : SigningMethod) (user : UserId)
    → subject_of (record { method = m; valid = is_valid; subject = claimed }) ≡ ok user
    → (is_valid ≡ true) × (claimed ≡ some user)
unfolding subject_of
accepted none is_valid m user h = cc
accepted (some u) true m user h = (refl, cc)
accepted (some u) false m user h = cc

-- A user is given only for a token that parses, is signed with a HMAC method, is valid, and names
-- the user as its subject.
pub validate_token_sound :
    (jwt : Jwt) (token secret : String) (user : UserId)
    → LawfulJwt jwt
    → validate_token jwt token secret ≡ ok user
    → (t : Token) × (jwt.parse_with_claims token (key_for secret) ≡ ok t)
      × (t.method ≡ hmac)
      × (t.valid ≡ true)
      × (t.subject ≡ some user)
unfolding validate_token
validate_token_sound jwt token secret user law h =
    let (t, parsed, given) = >>=-ok (jwt.parse_with_claims token (key_for secret)) subject_of h in
    let (key, keyed) = law.keyed token (key_for secret) t parsed in
    let (is_valid, claimed) = accepted t.subject t.valid t.method user given in
    (t, parsed, keyed-hmac secret key t.method keyed, is_valid, claimed)
