-- ===== src/ClientStore/Registry.antt =====
-- The map of connections and the stored client information.
use text.Mathlib.TextLemmas.{append_cancel_left}
use r2_notify_server.Prelude.{
  String, ◌≡◌, ◌≢◌, refl, sym, ◌∙◌, ap, Option, none, some, List, [], ◌∷◌, ok, Error, >>=-ok,
  eq_of_ok, eq_of_some, ◌==◌, eq_iff, eq_refl, arith, if◌then◌else◌,
}
use r2_notify_server.Models.{UserId, Conn, ClientInfo}
use r2_notify_server.Json.Encode.{encode_client_info, bytes_of}
use r2_notify_server.Json.Decode.{unmarshal_client_info}
use r2_notify_server.Json.RoundTrip.{unmarshal_client_info-encode}
use r2_notify_server.World.{Backend, World, LawfulRedis, conns_of}
use r2_notify_server.ClientStore.{
  client_key, as_result, without, store_client, keep_remaining, remove_found, remove_connection,
  get_client_info, update_client_info,
}

client_key-injective : (u v : UserId) → client_key u ≡ client_key v → u ≡ v
unfolding client_key
client_key-injective u v h = append_cancel_left "client:" u v h

pub as_result-ok : (o : Option Error) → as_result o ≡ ok tt → o ≡ none
as_result-ok none h = refl
as_result-ok (some e) h = cc

module _ (b : Backend) (user : UserId) (conn : Conn) where
  kept_conns :
      (remaining : List Conn) (w : World b) (u : UserId)
      → conns_of (keep_remaining b user remaining w).clients u
        ≡ (if user == u then remaining else conns_of w.clients u)
  unfolding keep_remaining
  kept_conns [] w u = ground arith
  kept_conns (c ∷ cs) w u = ground arith

  found_conns :
      (found : Option (List Conn)) (w : World b) (u : UserId)
      → w.clients user ≡ found
      → conns_of (remove_found b user conn found w).clients u
        ≡ (if user == u then without conn (conns_of w.clients u) else conns_of w.clients u)
  unfolding remove_found
  found_conns none w u h = ground (arith, eq_iff user u)
  found_conns (some conns) w u h =
      ground (arith, eq_iff user u, kept_conns (without conn conns) w u)

  -- RemoveConnection takes exactly the given connection out of the user's list, and leaves the
  -- order of the rest and the lists of the other users.
  pub conns_of-remove_connection :
      (w : World b) (u : UserId)
      → conns_of (remove_connection b user conn w).clients u
        ≡ (if user == u then without conn (conns_of w.clients u) else conns_of w.clients u)
  unfolding remove_connection
  conns_of-remove_connection w u = found_conns (w.clients user) w u refl

  kept_sockets :
      (remaining : List Conn) (w : World b)
      → (keep_remaining b user remaining w).sockets ≡ w.sockets
  unfolding keep_remaining
  kept_sockets [] w = refl
  kept_sockets (c ∷ cs) w = refl

  found_sockets :
      (found : Option (List Conn)) (w : World b)
      → (remove_found b user conn found w).sockets ≡ w.sockets
  unfolding remove_found
  found_sockets none w = refl
  found_sockets (some conns) w = kept_sockets (without conn conns) w

  pub sockets-remove_connection :
      (w : World b) → (remove_connection b user conn w).sockets ≡ w.sockets
  unfolding remove_connection
  sockets-remove_connection w = found_sockets (w.clients user) w

  kept_not_empty :
      (remaining : List Conn) (w : World b)
      → (keep_remaining b user remaining w).clients user ≢ some []
  unfolding keep_remaining
  kept_not_empty [] w e = ground (arith, eq_refl user)
  kept_not_empty (c ∷ cs) w e = ground (arith, eq_refl user)

  found_not_empty :
      (found : Option (List Conn)) (w : World b)
      → w.clients user ≡ found
      → (remove_found b user conn found w).clients user ≢ some []
  unfolding remove_found
  found_not_empty none w given = λ e. cc
  found_not_empty (some conns) w given = kept_not_empty (without conn conns) w

  -- RemoveConnection never leaves the user's key in the map with an empty list: with the last
  -- connection the key is gone.
  remove_connection-not_empty :
      (w : World b) → (remove_connection b user conn w).clients user ≢ some []
  unfolding remove_connection
  remove_connection-not_empty w = found_not_empty (w.clients user) w refl

module _ (b : Backend) (law : LawfulRedis b.redis) where
  -- In a state that has the stored bytes of an update under the user's key, GetClientInfo gives the
  -- information of the update, or an error.
  pub stored_info :
      (info found : ClientInfo) (text : String) (w v : World b)
      → b.times.format info.connected_at ≡ ok text
      → b.times.parse text ≡ ok info.connected_at
      → (update_client_info b info w).0 ≡ ok tt
      → b.redis.view v.redis (client_key info.id)
        ≡ b.redis.view (update_client_info b info w).1.redis (client_key info.id)
      → (get_client_info b info.id v).0 ≡ ok found
      → found ≡ info
  unfolding get_client_info update_client_info
  stored_info info found text w v written read h kept g =
      let key = client_key info.id in
      let bytes = bytes_of (encode_client_info b.times info) in
      let (r, e, u) = >>=-ok (b.redis.get key v.redis).0 _ g in
      let same : r ≡ bytes = eq_of_some (
        sym (law.get_found key _ r e)
        ∙ kept
        ∙ law.set_stores key bytes w.redis (as_result-ok _ h)) in
      eq_of_ok (
        sym u
        ∙ ap (unmarshal_client_info b.times) same
        ∙ unmarshal_client_info-encode b.times info text written read)

  -- What StoreClient has stored without an error is what GetClientInfo then gives, when it gives a
  -- result and the time has a text that reads back.
  get_client_info-store_client :
      (info found : ClientInfo) (conn : Conn) (text : String) (w : World b)
      → b.times.format info.connected_at ≡ ok text
      → b.times.parse text ≡ ok info.connected_at
      → (store_client b info conn w).0 ≡ ok tt
      → (get_client_info b info.id (store_client b info conn w).1).0 ≡ ok found
      → found ≡ info
  unfolding store_client update_client_info
  get_client_info-store_client info found conn text w written read h g =
      stored_info info found text w (store_client b info conn w).1 written read h refl g

  -- Likewise for UpdateClientInfo.
  pub get_client_info-update_client_info :
      (info found : ClientInfo) (text : String) (w : World b)
      → b.times.format info.connected_at ≡ ok text
      → b.times.parse text ≡ ok info.connected_at
      → (update_client_info b info w).0 ≡ ok tt
      → (get_client_info b info.id (update_client_info b info w).1).0 ≡ ok found
      → found ≡ info
  unfolding update_client_info
  get_client_info-update_client_info info found text w written read h g =
      stored_info info found text w (update_client_info b info w).1 written read h refl g

  -- Whatever its outcome, an update of one user's information leaves what is stored for another.
  update_client_info-other :
      (info : ClientInfo) (other : UserId) (w : World b)
      → other ≢ info.id
      → b.redis.view (update_client_info b info w).1.redis (client_key other)
        ≡ b.redis.view w.redis (client_key other)
  unfolding update_client_info
  update_client_info-other info other w apart =
      law.set_spares (client_key info.id) (client_key other) _ w.redis
        (λ e. apart (client_key-injective other info.id e))
