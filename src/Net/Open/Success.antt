-- ===== src/Net/Open/Success.antt =====
-- What `ff_net_ws_open` has done when it succeeds, up to the connection's buffer.
use obs_foxfire.Net.Open.{handshake_key, net_io, send_request, Curl, delivered}
use obs_foxfire.Net.Open.Upgrade.{IsKept}
use obs_foxfire.Ws.Conn.{conn_init, Conn}
use obs_foxfire.Ws.Handshake.{handshake_request}
use obs_foxfire.Net.{Url}
use obs_foxfire.Prelude.{Bytes, ℕ, ◌≡◌, some, []}

module _ (curl : Curl) (h : curl.Handle) where
  open curl use {World}

  -- What is known of a connection that is opened, `w` being the world that has its
  -- handle: the request with a fresh key was written and sent whole,
  -- and what was read since is the response and the connection's buffer.
  pub record IsOpened (stack : Bytes) (turns : ℕ) (w : World) (u : Url) (w' : World) (rx : Bytes)
      : Type 0 where
    pub random_bytes : Bytes
    pub request : Bytes
    pub w2 : World
    pub drawn : (curl.random (conn_init (net_io curl h) w).2 16).0 ≡ some random_bytes
    pub written : handshake_request u.host u.path (handshake_key random_bytes) 1024 ≡ some request
    pub sent :
        send_request curl turns (curl.random (conn_init (net_io curl h) w).2 16).1 h request 0
        ≡ (delivered, w2)
    pub kept : IsKept curl h stack (handshake_key random_bytes) w2 [] w' rx
