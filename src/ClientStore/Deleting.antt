-- ===== src/ClientStore/Deleting.antt =====
-- services/client_store.go: DeleteClient, beside GetClientInfo and the map.
use r2_notify_server.Prelude.{◌≡◌, ◌≢◌, [], ok, >>=-ok, ◌==◌, arith, if◌then◌else◌}
use r2_notify_server.Models.{UserId, ClientInfo}
use r2_notify_server.World.{Backend, World, LawfulRedis, conns_of}
use r2_notify_server.ClientStore.{client_key, delete_client, get_client_info}
use r2_notify_server.ClientStore.Registry.{as_result-ok}

module _ (b : Backend) (law : LawfulRedis b.redis) (id : UserId) (w : World b) where
  unknown :
      (found : ClientInfo)
      → (delete_client b id w).0 ≡ ok tt
      → (get_client_info b id (delete_client b id w).1).0 ≢ ok found
  unfolding delete_client get_client_info
  unknown found h given =
      let key = client_key id in
      let (v, e, _) = >>=-ok (b.redis.get key (b.redis.del key w.redis).1).0 _ given in
      cc (law.get_found key _ v e, law.del_removes key w.redis (as_result-ok _ h))

  forgotten :
      (u : UserId)
      → conns_of (delete_client b id w).1.clients u ≡ (if id == u then [] else conns_of w.clients u)
  unfolding delete_client
  forgotten u = ground arith

  -- After a DeleteClient without an error, GetClientInfo gives no information of the user, the
  -- user has no connection in the map, and every other user has the connections from before.
  get_client_info-delete_client :
      (delete_client b id w).0 ≡ ok tt
      → ((found : ClientInfo) → (get_client_info b id (delete_client b id w).1).0 ≢ ok found)
        × ((u : UserId)
            → conns_of (delete_client b id w).1.clients u
              ≡ (if id == u then [] else conns_of w.clients u))
  get_client_info-delete_client h = (λ found. unknown found h, forgotten)
