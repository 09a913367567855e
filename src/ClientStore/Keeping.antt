-- ===== src/ClientStore/Keeping.antt =====
-- What sending leaves in Redis.
use r2_notify_server.Prelude.{
  String, ◌≡◌, refl, ◌∙◌, ap, Bool, not, ◌&&◌, Option, none, some, List, Result, ok, err, inl, inr,
  Bool-cases,
}
use r2_notify_server.Models.{UserId, Conn, ClientInfo}
use r2_notify_server.Json.{Json}
use r2_notify_server.World.{Backend, World, LawfulRedis}
use r2_notify_server.ClientStore.{
  client_key, send_to_user, send_found, send_checked, send_marshalled, get_client_info,
}

module _ (b : Backend) (user : UserId) where
  marshalled_redis :
      (conns : List Conn) (payload : Result Json) (w : World b)
      → (send_marshalled b user conns payload w).1.redis ≡ w.redis
  unfolding send_marshalled
  marshalled_redis conns (err e) w = refl
  marshalled_redis conns (ok j) w = refl

  checked_redis :
      (conns : List Conn) (info : Result ClientInfo) (payload : Result Json) (bypass : Bool)
      (w : World b)
      → (send_checked b user conns info payload bypass w).1.redis ≡ w.redis
  unfolding send_checked
  checked_redis conns (err e) payload bypass w = refl
  checked_redis conns (ok info) payload bypass w =
      elim (Bool-cases (not bypass && not info.enable_notification)) [
        | inl stop ↦ rw stop refl
        | inr go ↦ rw go (marshalled_redis conns payload w)
      ]

  found_redis :
      (law : LawfulRedis b.redis) (found : Option (List Conn)) (payload : Result Json)
      (bypass : Bool) (k : String) (w : World b)
      → b.redis.view (send_found b user found payload bypass w).1.redis k ≡ b.redis.view w.redis k
  unfolding send_found get_client_info
  found_redis law none payload bypass k w = refl
  found_redis law (some conns) payload bypass k w =
      let (info, w') = get_client_info b user w in
      ap (λ s. b.redis.view s k) (checked_redis conns info payload bypass w')
      ∙ law.get_reads (client_key user) k w.redis

  pub send_to_user-redis :
      (law : LawfulRedis b.redis) (payload : Result Json) (bypass : Bool) (k : String) (w : World b)
      → b.redis.view (send_to_user b user payload bypass w).1.redis k ≡ b.redis.view w.redis k
  unfolding send_to_user
  send_to_user-redis law payload bypass k w = found_redis law (w.clients user) payload bypass k w
