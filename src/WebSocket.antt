-- ===== src/WebSocket.antt =====
-- handlers/websocket.go.
pub mod Actions
pub mod Events
pub mod Connect
pub mod Origins
pub mod Loops
