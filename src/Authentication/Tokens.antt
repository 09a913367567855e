-- ===== src/Authentication/Tokens.antt =====
-- Who is logged in, and for how long the token of a login is good.
use Prim.Native.Nat.{◌*◌}
use r2_notify_server.Prelude.{
  ◌⊎◌, inl, inr, ◌↔◌, String, ◌≡◌, ◌≢◌, refl, ap, ◌+◌, ◌≤◌, Result, ok, err, arith, ◌>>=◌,
}
use r2_notify_server.Models.{Time}
use r2_notify_server.Data.{GoogleAuthRequest, UserInfo}
use r2_notify_server.Json.{Bytes}
use r2_notify_server.Config.{Environment, load_config}
use r2_notify_server.Utils.{Jwt, hmac, key_for, subject_of, validate_token}
use r2_notify_server.Authentication.{
  Claim, text, no_text, Google, GooglePayload, Signer, LawfulSigner, epoch, second, Outcome, done,
  failed, panicked, with_text, logged_in, panicking, answer, claims_for, issued, issue,
  authenticate_payload, google_authenticate, handle_bound, google_auth_handler,
}

-- A user is the one that a payload of Google is about.
pub record Describes (payload : GooglePayload) (user : UserInfo) : Type 0 where
  pub subject : user.id ≡ payload.subject
  pub name : payload.claims "name" ≡ text user.name
  pub email : payload.claims "email" ≡ text user.email
  pub avatar : payload.claims "picture" ≡ text user.avatar

with_text-done :
    {A : Type 0} (c : Claim) (next : String → Outcome A) (a : A)
    → with_text c next ≡ done a
    → (s : String) × (c ≡ text s) × (next s ≡ done a)
with_text-done (text s) next a h = (s, refl, h)
with_text-done no_text next a h = cc

module _ (google : Google) (signer : Signer) (env : Environment) (now : Time) where
  -- A login's token has been signed for its user.
  abbrev pub IsSignedFor : UserInfo → String → Type 0
  IsSignedFor user signed =
      signer.signed_string hmac (claims_for user now) (load_config env).jwt_secret ≡ ok signed

  issued-done :
      (user u : UserInfo) (r : Result String) (signed : String)
      → issued google signer env user r ≡ done (u, signed)
      → (r ≡ ok signed) × (u ≡ user)
  issued-done user u (err e) signed h = cc
  issued-done user u (ok s) signed h = (cc, cc)

  issue-done :
      (user u : UserInfo) (signed : String)
      → issue google signer env user now ≡ done (u, signed)
      → IsSignedFor user signed × (u ≡ user)
  unfolding issue
  issue-done user u signed h = issued-done user u _ signed h

  payload-done :
      (r : Result GooglePayload) (user : UserInfo) (signed : String)
      → authenticate_payload google signer env r now ≡ done (user, signed)
      → (payload : GooglePayload) × (r ≡ ok payload)
        × Describes payload user
        × IsSignedFor user signed
  unfolding authenticate_payload
  payload-done (err e) user signed h = cc
  payload-done (ok payload) user signed h =
      let (name, named, h1) = with_text-done (payload.claims "name") _ (user, signed) h in
      let (email, mailed, h2) = with_text-done (payload.claims "email") _ (user, signed) h1 in
      let (avatar, shown, h3) = with_text-done (payload.claims "picture") _ (user, signed) h2 in
      let (good, same) = issue-done _ user signed h3 in
      (
        payload,
        refl,
        rw same (record { subject = refl; name = named; email = mailed; avatar = shown }),
        rw same good,
      )

  handled :
      (a : Outcome (UserInfo × String)) (signed : String) (user : UserInfo)
      → answer a ≡ logged_in signed user
      → a ≡ done (user, signed)
  handled (done p) signed user h = cc
  handled (failed e) signed user h = cc
  handled panicked signed user h = cc

  bound_logged_in :
      (r : Result GoogleAuthRequest) (signed : String) (user : UserInfo)
      → handle_bound google signer env r now ≡ logged_in signed user
      → (request : GoogleAuthRequest) × (payload : GooglePayload) × (r ≡ ok request)
        × (google.validate request.token (load_config env).google_client_id ≡ ok payload)
        × Describes payload user
        × IsSignedFor user signed
  unfolding handle_bound google_authenticate
  bound_logged_in (err e) signed user h = cc
  bound_logged_in (ok request) signed user h =
      let (payload, e, described, good) = payload-done _ user signed (handled _ signed user h) in
      (request, payload, refl, e, described, good)

  module _ (at : Time → Jwt) (law : LawfulSigner signer at) (user : UserInfo) (signed : String)
      (since_1970 : epoch * second ≤ now) (good : IsSignedFor user signed) where
    -- A token is good for a day, less the part of a second that its expiry leaves off.
    good_for_a_day :
        (later : Time)
        → later + second ≤ now + 24 * 60 * 60 * second
        → validate_token (at later) signed (load_config env).jwt_secret ≡ ok user.id
    unfolding validate_token key_for subject_of claims_for
    good_for_a_day later soon =
        let parsed =
          law.accepts (claims_for user now) (load_config env).jwt_secret signed
            (key_for (load_config env).jwt_secret) later good refl (omega arith) in
        ap (λ r. r >>= subject_of) parsed

    bad_after_a_day :
        (later : Time)
        → now + 24 * 60 * 60 * second ≤ later
        → (id : String) → validate_token (at later) signed (load_config env).jwt_secret ≢ ok id
    unfolding validate_token key_for claims_for
    bad_after_a_day later late id h =
        let parsed =
          law.expires (claims_for user now) (load_config env).jwt_secret signed
            (key_for (load_config env).jwt_secret) later good refl (omega arith) in
        cc (parsed, h)

  -- For a clock from 1970 on, a login that succeeds is of a bound request whose token Google has
  -- validated for the configured client; the user is the subject of Google's payload with the
  -- name, email and picture of its claims, and the token is accepted as the user's until a second
  -- before a day has passed, and is not accepted from a day on.
  pub google_auth_handler-logged_in :
      (at : Time → Jwt) (law : LawfulSigner signer at)
      (bind_json : Bytes → Result GoogleAuthRequest) (body : Bytes) (signed : String)
      (user : UserInfo)
      → epoch * second ≤ now
      → google_auth_handler google signer env bind_json body now ≡ logged_in signed user
      → (request : GoogleAuthRequest) × (payload : GooglePayload) × (bind_json body ≡ ok request)
        × (google.validate request.token (load_config env).google_client_id ≡ ok payload)
        × Describes payload user
        × ((later : Time)
            → later + second ≤ now + 24 * 60 * 60 * second
            → validate_token (at later) signed (load_config env).jwt_secret ≡ ok user.id)
        × ((later : Time)
            → now + 24 * 60 * 60 * second ≤ later
            → (id : String) → validate_token (at later) signed (load_config env).jwt_secret ≢ ok id)
  unfolding google_auth_handler
  google_auth_handler-logged_in at law bind_json body signed user since_1970 h =
      let (request, payload, bound, valid, described, good) =
        bound_logged_in (bind_json body) signed user h in
      (
        request,
        payload,
        bound,
        valid,
        described,
        good_for_a_day at law user signed since_1970 good,
        bad_after_a_day at law user signed since_1970 good,
      )

  second_claim :
      {A : Type 0} (a : Claim) (next : String → String → Outcome A)
      → with_text a (λ s. with_text no_text (next s)) ≡ panicked
  second_claim (text s) next = refl
  second_claim no_text next = refl

  third_claim :
      {A : Type 0} (a b : Claim) (next : String → String → String → Outcome A)
      → with_text a (λ s. with_text b (λ t. with_text no_text (next s t))) ≡ panicked
  third_claim (text s) (text t) next = refl
  third_claim (text s) no_text next = refl
  third_claim no_text b next = refl

  -- The names that the handler asserts a text under.
  pub data IsAsserted : String → Type 0 where
    name : IsAsserted "name"
    email : IsAsserted "email"
    picture : IsAsserted "picture"

  abbrev issued_for : GooglePayload → String → String → String → Outcome (UserInfo × String)
  issued_for payload s t u =
      issue google signer env (record { id = payload.subject; name = s; email = t; avatar = u }) now

  claimless :
      (payload : GooglePayload) (key : String)
      → IsAsserted key
      → payload.claims key ≡ no_text
      → authenticate_payload google signer env (ok payload) now ≡ panicked
  unfolding authenticate_payload
  claimless payload _ name h = rw h
  claimless payload _ email h = rw h (
      second_claim (payload.claims "name")
        λ s t. with_text (payload.claims "picture") (λ u. issued_for payload s t u))
  claimless payload _ picture h = rw h (
      third_claim (payload.claims "name") (payload.claims "email")
        (λ s t u. issued_for payload s t u))

  issued-goes_on :
      (user : UserInfo) (r : Result String) → issued google signer env user r ≢ panicked
  issued-goes_on user (err e) h = cc
  issued-goes_on user (ok signed) h = cc

  issued_for-goes_on :
      (payload : GooglePayload) (s t u : String) → issued_for payload s t u ≢ panicked
  unfolding issue
  issued_for-goes_on payload s t u = issued-goes_on _ _

  with_text-panicked :
      {A : Type 0} (c : Claim) (next : String → Outcome A)
      → with_text c next ≡ panicked
      → (c ≡ no_text) ⊎ ((s : String) × (next s ≡ panicked))
  with_text-panicked (text s) next h = inr (s, h)
  with_text-panicked no_text next h = inl refl

  -- Some claim that is asserted to be a text is none.
  abbrev pub LacksText : GooglePayload → Type 0
  LacksText payload = (key : String) × IsAsserted key × (payload.claims key ≡ no_text)

  panicked_lacks :
      (r : Result GooglePayload)
      → authenticate_payload google signer env r now ≡ panicked
      → (payload : GooglePayload) × (r ≡ ok payload) × LacksText payload
  unfolding authenticate_payload
  panicked_lacks (err e) h = cc
  panicked_lacks (ok payload) h = elim (with_text-panicked (payload.claims "name") _ h) [
    | inl e ↦ (payload, refl, ("name", name, e))
    | inr (s, h2) ↦ elim (with_text-panicked (payload.claims "email") _ h2) [
      | inl e ↦ (payload, refl, ("email", email, e))
      | inr (t, h3) ↦ elim (with_text-panicked (payload.claims "picture") _ h3) [
        | inl e ↦ (payload, refl, ("picture", picture, e))
        | inr (u, h4) ↦ absurd (issued_for-goes_on payload s t u h4)
      ]
    ]
  ]

  answer-panicked : (o : Outcome (UserInfo × String)) → answer o ≡ panicking → o ≡ panicked
  answer-panicked (done r) h = cc
  answer-panicked (failed e) h = cc
  answer-panicked panicked h = refl

  bound_panicked :
      (r : Result GoogleAuthRequest)
      → handle_bound google signer env r now ≡ panicking
      → (request : GoogleAuthRequest) × (payload : GooglePayload) × (r ≡ ok request)
        × (google.validate request.token (load_config env).google_client_id ≡ ok payload)
        × LacksText payload
  unfolding handle_bound google_authenticate
  bound_panicked (err e) h = cc
  bound_panicked (ok request) h =
      let (payload, valid, lacks) = panicked_lacks _ (answer-panicked _ h) in
      (request, payload, refl, valid, lacks)

  -- A login panics exactly when its body can be bound and Google validates its token for the
  -- configured client, but the payload has no text under `name`, `email` or `picture`.
  pub google_auth_handler-panicking :
      (bind_json : Bytes → Result GoogleAuthRequest) (body : Bytes)
      → (google_auth_handler google signer env bind_json body now ≡ panicking) ↔ (
          (request : GoogleAuthRequest) × (payload : GooglePayload) × (bind_json body ≡ ok request)
          × (google.validate request.token (load_config env).google_client_id ≡ ok payload)
          × LacksText payload)
  unfolding google_auth_handler handle_bound google_authenticate
  google_auth_handler-panicking bind_json body = (
    (λ h. bound_panicked (bind_json body) h),
    (λ p.
        let (request, payload, bound, valid, lacks) = p in
        let (key, asserted, missing) = lacks in
        rw (bound, valid, claimless payload key asserted missing) refl),
  )
