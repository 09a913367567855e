-- ===== src/WebSocket/Origins.antt =====
-- Which origins are accepted.
use r2_notify_server.Prelude.{String, ◌≡◌, sym, true, eq_iff, arith}
use r2_notify_server.Text.{split_comma, trim_space}
use r2_notify_server.Utils.{process_allowed_origins}
use r2_notify_server.WebSocket.Connect.{check_origin}

-- Under the setting `*`, only a request whose Origin header is the text `*` is accepted.
check_origin-star : (origin : String) → check_origin "*" origin ≡ true → origin ≡ "*"
unfolding check_origin process_allowed_origins split_comma trim_space
check_origin-star origin h = sym ((eq_iff "*" origin).0 (ground arith))
