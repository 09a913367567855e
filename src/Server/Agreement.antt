-- ===== src/Server/Agreement.antt =====
-- The two ways to a new notification: the request of controller/notification_controller.go and the
-- event of event-hub/consumer/consumer.go.
use r2_notify_server.Prelude.{
  String, ◌≡◌, ◌≢◌, refl, ◌∙◌, ap, ◌||◌, Option, none, some, Result, ok, err, Error, ◌==◌,
  Bool-cases, inl, inr,
}
use r2_notify_server.Text.{strip_prefix}
use r2_notify_server.Models.{Time, UserId, ObjectId}
use r2_notify_server.Data.{CreateNotificationRequest, EventHubNotificationPayload}
use r2_notify_server.Json.{Bytes}
use r2_notify_server.Json.Decode.{unmarshal_event_hub_payload}
use r2_notify_server.World.{Backend, World}
use r2_notify_server.Utils.{Jwt, validate_token}
use r2_notify_server.Controller.{
  Binding, Request, Response, unauthorized, bad_request, bearer_prefix, announcement, respond,
  create_valid, create_bound, create_as, create_with, create_notification,
}
use r2_notify_server.Consumer.{model_of, payload_of, announce, receive_payload, receive}
use r2_notify_server.Service.Notification.{NotificationService}

-- The event that says the same as a request.
abbrev event_of : UserId → String → CreateNotificationRequest → EventHubNotificationPayload
event_of user app p = record {
  user_id = user;
  app_id = app;
  group_key = p.group_key;
  message = p.message;
  status = p.status;
}

-- A request was let through: it was not answered with 401 or 400.
abbrev pub IsLetThrough : Response → Type 0
IsLetThrough r = (r ≢ unauthorized) × (r ≢ bad_request)

module _ (b : Backend) (notifications : NotificationService (World b)) (binding : Binding)
    (made changed : Time) where
  responded_same :
      (p : EventHubNotificationPayload) (r : Result ObjectId × World b)
      → announce b notifications p made changed r
        ≡ (respond b notifications binding (model_of p made changed) r).1
  unfolding announce respond payload_of announcement
  responded_same p (err e, w) = refl
  responded_same p (ok id, w) = refl

  valid_same :
      (user : UserId) (app : String) (p : CreateNotificationRequest) (e : Option Error)
      (w : World b)
      → IsLetThrough (create_valid b notifications binding made changed user app p e w).0
      → receive_payload b notifications made changed (ok (event_of user app p)) w
        ≡ (create_valid b notifications binding made changed user app p e w).1
  unfolding create_valid receive_payload
  valid_same user app p (some e) w h = absurd (h.1 refl)
  valid_same user app p none w h =
      responded_same (event_of user app p)
        (notifications.create (model_of (event_of user app p) made changed) w)

  -- The event that says the same, and leaves the same state.
  pub record Agrees (user : UserId) (request : Request) (w v : World b) : Type 0 where
    pub sent : CreateNotificationRequest
    pub bound : binding.bind_json request.body ≡ ok sent
    pub same_state :
        (body : Bytes)
        → unmarshal_event_hub_payload body ≡ ok (event_of user request.app_id sent)
        → receive b notifications made changed body w ≡ v

  bound_same :
      (user : UserId) (request : Request) (r : Result CreateNotificationRequest) (w : World b)
      → binding.bind_json request.body ≡ r
      → IsLetThrough (create_bound b notifications binding made changed user request.app_id r w).0
      → Agrees user request w
          (create_bound b notifications binding made changed user request.app_id r w).1
  unfolding create_bound receive
  bound_same user request (err e) w same h = absurd (h.1 refl)
  bound_same user request (ok p) w same h = record {
    sent = p;
    bound = same;
    same_state = λ body e.
        ap (λ r. receive_payload b notifications made changed r w) e
        ∙ valid_same user request.app_id p (binding.validate p) w h;
  }

  as_same :
      (r : Result UserId) (request : Request) (w : World b)
      → IsLetThrough (create_as b notifications binding made changed r request w).0
      → (user : UserId) × (r ≡ ok user)
        × Agrees user request w (create_as b notifications binding made changed r request w).1
  unfolding create_as
  as_same (err e) request w h = absurd (h.0 refl)
  as_same (ok user) request w h = elim (Bool-cases (user == "" || request.app_id == "")) [
    | inl missing ↦ absurd ((rw missing at h).1 refl)
    | inr there ↦ (
      user,
      refl,
      rw there (bound_same user request (binding.bind_json request.body) w refl (rw there at h)),
    )
  ]

  with_same :
      (jwt : Jwt) (secret : String) (t : Option String) (request : Request) (w : World b)
      → IsLetThrough (create_with b notifications binding jwt secret made changed t request w).0
      → (token user : String) × (t ≡ some token)
        × (validate_token jwt token secret ≡ ok user)
        × Agrees user request w
            (create_with b notifications binding jwt secret made changed t request w).1
  unfolding create_with
  with_same jwt secret none request w h = absurd (h.0 refl)
  with_same jwt secret (some token) request w h =
      let (user, valid, agrees) = as_same (validate_token jwt token secret) request w h in
      (token, user, refl, valid, agrees)

  -- A request that is answered neither with 401 nor with 400, so also one whose insertion fails,
  -- has a token that is valid for a user and a body that was bound, and leaves the state, with
  -- what was sent to the connections, that the consumer leaves on an event for that user with the
  -- app of the header and the fields of the body.
  pub receive-create_notification :
      (jwt : Jwt) (secret : String) (request : Request) (w : World b)
      → IsLetThrough
          (create_notification b notifications binding jwt secret made changed request w).0
      → (token user : String) × (strip_prefix bearer_prefix request.authorization ≡ some token)
        × (validate_token jwt token secret ≡ ok user)
        × Agrees user request w
            (create_notification b notifications binding jwt secret made changed request w).1
  unfolding create_notification
  receive-create_notification jwt secret request w h =
      with_same jwt secret (strip_prefix bearer_prefix request.authorization) request w h
