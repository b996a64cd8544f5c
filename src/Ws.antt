-- ===== src/Ws.antt =====
-- The WebSocket client: src/ff-ws.c (framing and the handshake's digest) and src/ff-ws-conn.c (the
-- handshake and the connection).
pub mod Frame
pub mod Digest
pub mod Conn
pub mod Handshake
