-- ===== src/Server/Stored.antt =====
-- The service's Create on the shared state.
use r2_notify_server.Prelude.{◌≡◌, refl, [], ◌∷◌, ◌++◌, ok}
use r2_notify_server.Models
use r2_notify_server.Models.{Time, UserId, Conn, ObjectId}
use r2_notify_server.Mongo.{Lawful}
use r2_notify_server.World.{Backend, World, LawfulSockets}
use r2_notify_server.Repository.Notification.Schema.{stored}
use r2_notify_server.Repository.Notification.Reads.{view-create}
use r2_notify_server.Service.Notification
use r2_notify_server.Server.{notifications}
use r2_notify_server.Server.Reach.{Serves, Serves-silent}

-- Only the collection of notifications is different.
pub silent_create :
    (b : Backend) (law : LawfulSockets b.sockets) (user : UserId) (m : Models.Notification)
    (w : World b)
    → Serves b law user w ((notifications b).create m w).1
unfolding Notification.create
silent_create b law user m w = Serves-silent b law user w _ refl refl

-- The service's Create, on the shared state.
pub created_view :
    (b : Backend) (law : Lawful b.notifications) (n : Models.Notification) (id : ObjectId)
    (w : World b)
    → ((notifications b).create n w).0 ≡ ok id
    → b.notifications.view ((notifications b).create n w).1.notifications
      ≡ b.notifications.view w.notifications ++ stored id n ∷ []
unfolding Notification.create
created_view b law n id w h = view-create b.notifications b.ids law n w.notifications id h
