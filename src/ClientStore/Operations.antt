-- ===== src/ClientStore/Operations.antt =====
-- services/client_store.go: calls of the functions that change the map, one after another.
use r2_notify_server.Prelude.{Bool, List, [], ◌∷◌, Result}
use r2_notify_server.Models.{UserId, Conn, ClientInfo}
use r2_notify_server.Json.{Json}
use r2_notify_server.World.{Backend, World}
use r2_notify_server.ClientStore.{store_client, delete_client, remove_connection, send_to_user}

pub data Operation : Type 0 where
  stores : ClientInfo → Conn → Operation
  deletes : UserId → Operation
  removes : UserId → Conn → Operation
  sends : UserId → Result Json → Bool → Operation

module _ (b : Backend) where
  abbrev pub carry_out : Operation → World b → World b
  carry_out (stores info conn) w = (store_client b info conn w).1
  carry_out (deletes user) w = (delete_client b user w).1
  carry_out (removes user conn) w = remove_connection b user conn w
  carry_out (sends user payload bypass) w = (send_to_user b user payload bypass w).1

  abbrev pub carry_out_all : List Operation → World b → World b
  carry_out_all [] w = w
  carry_out_all (o ∷ os) w = carry_out_all os (carry_out o w)
