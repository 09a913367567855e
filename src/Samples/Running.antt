-- ===== src/Samples/Running.antt =====
-- The theorems on what is delivered, and on the running server, on the server in memory.
use r2_notify_server.Prelude.{◌≡◌, refl, false, [], ◌∷◌, ok, if◌then◌else◌}
use r2_notify_server.Json.{Json, str}
use r2_notify_server.Json.Decode.{unmarshal_client_info}
use r2_notify_server.World.{conns_of}
use r2_notify_server.ClientStore.{
  client_key, get_client_info, send_to_user, send_found, send_checked, send_marshalled, write_all,
}
use r2_notify_server.ClientStore.Writing.{has}
use r2_notify_server.ClientStore.Delivery.{send_to_user-sent}
use r2_notify_server.Samples.Parts.{logs-Lawful}
use r2_notify_server.Samples.Start.{backend, two_users}

abbrev hello : Json
hello = str "hello"

-- The message is on connection 3, and not on the broken connection 9.
send_to_user-sent_example :
    let w = (send_to_user backend "ann" (ok hello) false two_users).1 in
    backend.sockets.sent w.sockets 3 ≡ (if has 3 (conns_of w.clients "ann") then hello ∷ [] else [])
unfolding send_to_user send_found send_checked send_marshalled get_client_info client_key
    unmarshal_client_info write_all
send_to_user-sent_example =
    send_to_user-sent backend logs-Lawful "ann" two_users 3 (ok hello) false hello
      (refl, (refl, tt)) refl refl
