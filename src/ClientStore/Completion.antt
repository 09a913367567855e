-- ===== src/ClientStore/Completion.antt =====
-- When sendToUser goes through.
use r2_notify_server.Prelude.{
  ◌≡◌, refl, Bool, true, false, not, ◌&&◌, ◌||◌, some, List, Result, ok, arith,
}
use r2_notify_server.Models.{UserId, Conn, ClientInfo}
use r2_notify_server.Json.{Json}
use r2_notify_server.World.{Backend, World}
use r2_notify_server.ClientStore.{
  send_to_user, send_found, send_checked, send_marshalled, get_client_info,
}

module _ (b : Backend) (user : UserId) (w : World b) where
  passed :
      (bypass : Bool) (info : ClientInfo)
      → (bypass || info.enable_notification) ≡ true
      → (not bypass && not info.enable_notification) ≡ false
  passed bypass info h = ground arith

  -- A call for a connected user whose stored information can be read, with the bypass or with
  -- notifications enabled, and with a payload that can be written, reports no error.
  pub send_to_user-ok :
      (payload : Result Json) (bypass : Bool) (conns : List Conn) (info : ClientInfo) (j : Json)
      → w.clients user ≡ some conns
      → (get_client_info b user w).0 ≡ ok info
      → (bypass || info.enable_notification) ≡ true
      → payload ≡ ok j
      → (send_to_user b user payload bypass w).0 ≡ ok tt
  unfolding send_to_user send_found send_checked send_marshalled
  send_to_user-ok payload bypass conns info j here read may written =
      rw (here, read, passed bypass info may, written) refl
