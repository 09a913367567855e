-- ===== src/Server/Creation.antt =====
-- Requests that the controller answers with `created`.
use r2_notify_server.Prelude.{
  String, ◌≡◌, ◌≢◌, refl, true, false, ◌||◌, Option, none, some, [], ◌∷◌, ◌++◌, Result, ok, err,
  Error, ◌==◌, Bool-cases, inl, inr,
}
use r2_notify_server.Models
use r2_notify_server.Models.{Time, UserId, Conn, ObjectId}
use r2_notify_server.Text.{strip_prefix}
use r2_notify_server.Data.{CreateNotificationRequest}
use r2_notify_server.Mongo.{Lawful}
use r2_notify_server.World.{Backend, World}
use r2_notify_server.ClientStore.{send_notification_to_user}
use r2_notify_server.ClientStore.Delivery.{send_to_user-collections}
use r2_notify_server.Repository.Notification.Schema.{stored}
use r2_notify_server.Controller.{
  Binding, LawfulBinding, Request, Response, created, new_model, bearer_prefix, respond,
  create_valid, create_bound, create_as, create_with, create_notification,
}
use r2_notify_server.Utils.{Jwt, validate_token}
use r2_notify_server.Server.{notifications}
use r2_notify_server.Server.Stored.{created_view}

created_injective : {m n : Models.Notification} → created m ≡ created n → n ≡ m
created_injective e = cc

module _ (b : Backend) (binding : Binding) (jwt : Jwt) (secret : String) (made changed : Time)
    (request : Request) (w : World b) where
  abbrev model : UserId → CreateNotificationRequest → Models.Notification
  model user p = new_model user request.app_id p made changed

  -- How the controller comes to the answer `created`.
  data IsCreated (m : Models.Notification) (r : Response × World b) : Type 0 where
    is_created :
        (token : String) (user : UserId) (p : CreateNotificationRequest) (id : ObjectId)
        → strip_prefix bearer_prefix request.authorization ≡ some token
        → validate_token jwt token secret ≡ ok user
        → binding.bind_json request.body ≡ ok p
        → binding.validate p ≡ none
        → (user == "" || request.app_id == "") ≡ false
        → ((notifications b).create (model user p) w).0 ≡ ok id
        → m ≡ record (model user p) { id = id }
        → r.1.notifications ≡ ((notifications b).create (model user p) w).1.notifications
        → IsCreated m r

  responded :
      (n m : Models.Notification) (r : Result ObjectId × World b)
      → (respond b (notifications b) binding n r).0 ≡ created m
      → (id : ObjectId) × (r.0 ≡ ok id)
        × (m ≡ record n { id = id })
        × ((respond b (notifications b) binding n r).1.notifications ≡ r.1.notifications)
  unfolding respond send_notification_to_user
  responded n m (err e, v) h = cc
  responded n m (ok id, v) h =
      (id, refl, created_injective h, (send_to_user-collections b _ _ false v).0)

  created_valid :
      (token : String) (user : UserId) (p : CreateNotificationRequest) (e : Option Error)
      (m : Models.Notification)
      → strip_prefix bearer_prefix request.authorization ≡ some token
      → validate_token jwt token secret ≡ ok user
      → (user == "" || request.app_id == "") ≡ false
      → binding.bind_json request.body ≡ ok p
      → binding.validate p ≡ e
      → let r = create_valid b (notifications b) binding made changed user request.app_id p e w in
        r.0 ≡ created m → IsCreated m r
  unfolding create_valid
  created_valid token user p (some e) m bearer valid named bound checked h = cc
  created_valid token user p none m bearer valid named bound checked h =
      let (id, got, same, kept) =
        responded (model user p) m ((notifications b).create (model user p) w) h in
      is_created token user p id bearer valid bound checked named got same kept

  created_bound :
      (token : String) (user : UserId) (body : Result CreateNotificationRequest)
      (m : Models.Notification)
      → strip_prefix bearer_prefix request.authorization ≡ some token
      → validate_token jwt token secret ≡ ok user
      → (user == "" || request.app_id == "") ≡ false
      → binding.bind_json request.body ≡ body
      → let r = create_bound b (notifications b) binding made changed user request.app_id body w in
        r.0 ≡ created m → IsCreated m r
  unfolding create_bound
  created_bound token user (err e) m bearer valid named bound h = cc
  created_bound token user (ok p) m bearer valid named bound h =
      created_valid token user p (binding.validate p) m bearer valid named bound refl h

  created_as :
      (token : String) (subject : Result UserId) (m : Models.Notification)
      → strip_prefix bearer_prefix request.authorization ≡ some token
      → validate_token jwt token secret ≡ subject
      → let r = create_as b (notifications b) binding made changed subject request w in
        r.0 ≡ created m → IsCreated m r
  unfolding create_as
  created_as token (err e) m bearer valid h = cc
  created_as token (ok user) m bearer valid h =
      elim (Bool-cases (user == "" || request.app_id == "")) [
        | inl missing ↦ absurd (refused missing h)
        | inr named ↦ rw named (
            created_bound token user (binding.bind_json request.body) m bearer valid named refl
              (rw named at h))
      ]
    where
      refused :
          (user == "" || request.app_id == "") ≡ true
          → (create_as b (notifications b) binding made changed (ok user) request w).0 ≡ created m
          → ⊥
      refused missing g = cc (rw missing at g)

  created_with :
      (bearer : Option String) (m : Models.Notification)
      → strip_prefix bearer_prefix request.authorization ≡ bearer
      → let r = create_with b (notifications b) binding jwt secret made changed bearer request w in
        r.0 ≡ created m → IsCreated m r
  unfolding create_with
  created_with none m e h = cc
  created_with (some token) m e h = created_as token (validate_token jwt token secret) m e refl h

  -- The answer `created` is given only to a request with a Bearer token whose subject is the
  -- notification's user, with the notification's app in its header, both not empty, and with a
  -- body that was bound and is valid, whose group, message and status, none of them empty, are the
  -- notification's; the notification is unread, has the times of the request, and stands at the
  -- end of the collection.
  pub create_notification-created :
      (law : Lawful b.notifications) (valid_binding : LawfulBinding binding)
      (m : Models.Notification)
      → (create_notification b (notifications b) binding jwt secret made changed request w).0
        ≡ created m
      → (token : String) × (strip_prefix bearer_prefix request.authorization ≡ some token)
        × (validate_token jwt token secret ≡ ok m.user_id)
        × (p : CreateNotificationRequest) × (binding.bind_json request.body ≡ ok p)
        × (binding.validate p ≡ none)
        × (m ≡ record {
          id = m.id;
          app_id = request.app_id;
          user_id = m.user_id;
          group_key = p.group_key;
          message = p.message;
          status = p.status;
          read_status = false;
          created_at = made;
          updated_at = changed;
        })
        × ((m.user_id == "" || m.app_id == "") ≡ false)
        × (m.group_key ≢ "")
        × (m.message ≢ "")
        × (m.status ≢ "")
        × (b.notifications.view
              (create_notification b
                (notifications b)
                binding
                jwt
                secret
                made
                changed
                request
                w).1.notifications
            ≡ b.notifications.view w.notifications ++ stored m.id m ∷ [])
  unfolding create_notification
  create_notification-created law valid_binding m h =
      of_created _ (created_with (strip_prefix bearer_prefix request.authorization) m refl h)
    where
      of_created :
          (r : Response × World b)
          → IsCreated m r
          → (token : String) × (strip_prefix bearer_prefix request.authorization ≡ some token)
            × (validate_token jwt token secret ≡ ok m.user_id)
            × (p : CreateNotificationRequest) × (binding.bind_json request.body ≡ ok p)
            × (binding.validate p ≡ none)
            × (m ≡ record {
              id = m.id;
              app_id = request.app_id;
              user_id = m.user_id;
              group_key = p.group_key;
              message = p.message;
              status = p.status;
              read_status = false;
              created_at = made;
              updated_at = changed;
            })
            × ((m.user_id == "" || m.app_id == "") ≡ false)
            × (m.group_key ≢ "")
            × (m.message ≢ "")
            × (m.status ≢ "")
            × (b.notifications.view r.1.notifications
                ≡ b.notifications.view w.notifications ++ stored m.id m ∷ [])
      of_created r (is_created token user p id bearer valid bound checked named got same kept) =
          let (has_group, has_message, has_status) = (valid_binding.required p).0 checked in
          rw (same, kept)
            (
              token,
              bearer,
              valid,
              p,
              bound,
              checked,
              refl,
              named,
              has_group,
              has_message,
              has_status,
              created_view b law (model user p) id w got,
            )
