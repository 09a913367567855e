-- ===== src/Server/Requests.antt =====
-- Requests that the controller turns away, and whom the others are for.
use r2_notify_server.Prelude.{
  String, ◌≡◌, refl, ◌∙◌, ap, Bool, true, false, ◌||◌, Option, none, some, Result, ok, err, Error,
  ◌==◌, Bool-cases, inl, inr,
}
use r2_notify_server.Models
use r2_notify_server.Models.{Time, UserId, Conn, ObjectId}
use r2_notify_server.Text.{strip_prefix}
use r2_notify_server.Data.{CreateNotificationRequest}
use r2_notify_server.World.{Backend, World, LawfulSockets, conns_of}
use r2_notify_server.ClientStore.{send_notification_to_user}
use r2_notify_server.ClientStore.Writing.{has}
use r2_notify_server.Controller.{
  Binding, Request, Response, unauthorized, bad_request, internal_error, created, new_model,
  bearer_prefix, announcement, respond, create_valid, create_bound, create_as, create_with,
  create_notification,
}
use r2_notify_server.Utils.{Jwt, validate_token}
use r2_notify_server.Server.{notifications}
use r2_notify_server.Server.Reach.{
  Narrows, Narrows-refl, Serves, Serves-silent, Serves-trans, send_to_user-Serves,
}
use r2_notify_server.Server.Stored.{silent_create}

-- A response that turns the request away before it reaches the service.
abbrev pub is_rejection : Response → Bool
is_rejection unauthorized = true
is_rejection bad_request = true
is_rejection (internal_error e) = false
is_rejection (created m) = false

-- A request that the controller turns away leaves the whole state as it was.
module _ (b : Backend) (binding : Binding) (made changed : Time) where
  responded_no_rejection :
      (n : Models.Notification) (r : Result ObjectId × World b)
      → is_rejection (respond b (notifications b) binding n r).0 ≡ false
  unfolding respond
  responded_no_rejection n (err e, v) = refl
  responded_no_rejection n (ok id, v) = refl

  rejected_valid :
      (user : UserId) (app : String) (p : CreateNotificationRequest) (e : Option Error)
      (w : World b)
      → let r = create_valid b (notifications b) binding made changed user app p e w in
        is_rejection r.0 ≡ true → r.1 ≡ w
  unfolding create_valid
  rejected_valid user app p (some e) w h = refl
  rejected_valid user app p none w h = cc (
      responded_no_rejection (new_model user app p made changed)
        ((notifications b).create (new_model user app p made changed) w))

  rejected_bound :
      (user : UserId) (app : String) (body : Result CreateNotificationRequest) (w : World b)
      → let r = create_bound b (notifications b) binding made changed user app body w in
        is_rejection r.0 ≡ true → r.1 ≡ w
  unfolding create_bound
  rejected_bound user app (err e) w h = refl
  rejected_bound user app (ok p) w h = rejected_valid user app p (binding.validate p) w h

  rejected_as :
      (subject : Result UserId) (request : Request) (w : World b)
      → let r = create_as b (notifications b) binding made changed subject request w in
        is_rejection r.0 ≡ true → r.1 ≡ w
  unfolding create_as
  rejected_as (err e) request w h = refl
  rejected_as (ok user) request w h = elim (Bool-cases (user == "" || request.app_id == "")) [
    | inl missing ↦ rw missing
    | inr named ↦
        rw named
          (rejected_bound user request.app_id (binding.bind_json request.body) w (rw named at h))
  ]

  rejected_with :
      (jwt : Jwt) (secret : String) (bearer : Option String) (request : Request) (w : World b)
      → let r = create_with b (notifications b) binding jwt secret made changed bearer request w in
        is_rejection r.0 ≡ true → r.1 ≡ w
  unfolding create_with
  rejected_with jwt secret none request w h = refl
  rejected_with jwt secret (some token) request w h =
      rejected_as (validate_token jwt token secret) request w h

  -- A request that is answered with 401 or 400 leaves the whole state as it was: nothing is stored
  -- and nothing is sent.
  pub create_notification-rejected :
      (jwt : Jwt) (secret : String) (request : Request) (w : World b)
      → is_rejection
          (create_notification b (notifications b) binding jwt secret made changed request w).0
        ≡ true
      → (create_notification b (notifications b) binding jwt secret made changed request w).1 ≡ w
  unfolding create_notification
  create_notification-rejected jwt secret request w h =
      rejected_with jwt secret (strip_prefix bearer_prefix request.authorization) request w h

module _ (b : Backend) (law : LawfulSockets b.sockets) (binding : Binding)
    (made changed : Time) where
  -- A request with the token of a user is for that user.
  responded_Serves :
      (m : Models.Notification) (p : Result ObjectId × World b) (w : World b)
      → Serves b law m.user_id w p.1
      → Serves b law m.user_id w (respond b (notifications b) binding m p).1
  unfolding respond send_notification_to_user announcement
  responded_Serves m (err e, v) w h = h
  responded_Serves m (ok id, v) w h =
      Serves-trans b law m.user_id w v _ h (send_to_user-Serves b law m.user_id _ false v)

  valid_Serves :
      (user : UserId) (app : String) (p : CreateNotificationRequest) (e : Option Error)
      (w : World b)
      → Serves b law user w (create_valid b (notifications b) binding made changed user app p e w).1
  unfolding create_valid
  valid_Serves user app p (some e) w = Serves-silent b law user w w refl refl
  valid_Serves user app p none w =
      let m = new_model user app p made changed in
      responded_Serves m ((notifications b).create m w) w (silent_create b law user m w)

  bound_Serves :
      (user : UserId) (app : String) (body : Result CreateNotificationRequest) (w : World b)
      → Serves b law user w
          (create_bound b (notifications b) binding made changed user app body w).1
  unfolding create_bound
  bound_Serves user app (err e) w = Serves-silent b law user w w refl refl
  bound_Serves user app (ok p) w = valid_Serves user app p (binding.validate p) w

  as_Serves :
      (user : UserId) (request : Request) (w : World b)
      → Serves b law user w
          (create_as b (notifications b) binding made changed (ok user) request w).1
  unfolding create_as
  as_Serves user request w = elim (Bool-cases (user == "" || request.app_id == "")) [
    | inl missing ↦ rw missing (Serves-silent b law user w w refl refl)
    | inr named ↦ rw named (bound_Serves user request.app_id (binding.bind_json request.body) w)
  ]

  as_Narrows :
      (subject : Result UserId) (request : Request) (w : World b)
      → Narrows w.clients
          (create_as b (notifications b) binding made changed subject request w).1.clients
  unfolding create_as
  as_Narrows (err e) request w = Narrows-refl w.clients
  as_Narrows (ok user) request w = (as_Serves user request w).narrows

  with_Narrows :
      (jwt : Jwt) (secret : String) (bearer : Option String) (request : Request) (w : World b)
      → Narrows w.clients
          (create_with b
            (notifications b)
            binding
            jwt
            secret
            made
            changed
            bearer
            request
            w).1.clients
  unfolding create_with
  with_Narrows jwt secret none request w = Narrows-refl w.clients
  with_Narrows jwt secret (some token) request w =
      as_Narrows (validate_token jwt token secret) request w

  pub create_notification-Narrows :
      (jwt : Jwt) (secret : String) (request : Request) (w : World b)
      → Narrows w.clients
          (create_notification b
            (notifications b)
            binding
            jwt
            secret
            made
            changed
            request
            w).1.clients
  unfolding create_notification
  create_notification-Narrows jwt secret request w =
      with_Narrows jwt secret (strip_prefix bearer_prefix request.authorization) request w

  -- A request with a user's valid Bearer token writes to no connection that the map does not have
  -- under that user.
  create_notification-sent_other :
      (jwt : Jwt) (secret token : String) (user : UserId) (request : Request) (d : Conn)
      (w : World b)
      → strip_prefix bearer_prefix request.authorization ≡ some token
      → validate_token jwt token secret ≡ ok user
      → has d (conns_of w.clients user) ≡ false
      → b.sockets.sent
          (create_notification b
            (notifications b)
            binding
            jwt
            secret
            made
            changed
            request
            w).1.sockets
          d
        ≡ b.sockets.sent w.sockets d
  unfolding create_notification create_with
  create_notification-sent_other jwt secret token user request d w bearer valid absent =
      ap
        (λ o.
          b.sockets.sent
            (create_with b (notifications b) binding jwt secret made changed o request w).1.sockets
            d)
        bearer
      ∙ ap
          (λ r.
            b.sockets.sent
              (create_as b (notifications b) binding made changed r request w).1.sockets d)
          valid
      ∙ (as_Serves user request w).quiet d absent
