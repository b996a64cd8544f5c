-- ===== src/Net/Open.antt =====
-- The transport of src/ff-net.c: sending and receiving through curl, and `ff_net_ws_open`. libcurl,
-- `poll`, the allocator and the source of random bytes are parameters, as is `stack`, what the digest
-- finds in its buffer. `err` holds at most `errcap - 1` bytes.
pub mod Success
pub mod Upgrade
use obs_foxfire.Net.{Url, url_parse}
use obs_foxfire.Ws.Conn.{dead, got, conn_buf, conn_init, Io, Conn, Received}
use obs_foxfire.Ws.Handshake.{
  handshake_request, refusal_text, refused, more, accepted, handshake_check,
}
use obs_foxfire.Ws.Digest.{sextet}
use obs_foxfire.Prelude.{
  ltb, leb, if◌then◌else◌, length, get_or, drop, Bytes, codes, clip, ℕ, zero, suc, ◌+◌, ◌-◌, ◌*◌,
  ◌^◌, Bool, true, false, not, Option, none, some, [], ◌∷◌, ◌++◌,
}
use obs_foxfire.Prelude.Int.{ℤ, pos, negsuc}

-- What `curl_easy_send` and `curl_easy_recv` give: CURLE_AGAIN, another error, or what was moved.
pub data Transfer (A : Type 0) : Type 0 where
  not_now broken : Transfer A
  moved : A → Transfer A

-- `perform` connects to a URL with CURLOPT_CONNECT_ONLY, and gives the text of an error;
-- `has_socket` is whether CURLINFO_ACTIVESOCKET gives a socket; `wait` is `net_wait`.
pub record Curl : Type 1 where
  pub World : Type 0
  pub Handle : Type 0
  pub easy_init : World → Option Handle × World
  pub perform : World → Handle → Bytes → Option Bytes × World
  pub has_socket : World → Handle → Bool × World
  pub easy_send : World → Handle → Bytes → Transfer ℕ × World
  pub easy_recv : World → Handle → ℕ → Transfer Bytes × World
  pub wait : World → Handle → ℕ → Bool → World
  pub cleanup : World → Handle → World
  pub new_net : World → Bool × World
  pub random : World → ℕ → Option Bytes × World
  pub alloc : World → ℕ → Bool × World
  pub sleep : World → ℕ → World

-- What `ff_net_ws_open` returns: null with a text, or the connection.
pub data Opened (H : Type 0) : Type 0 where
  not_opened : Bytes → Opened H
  opened : H → Conn → Opened H
  unsent : Opened H

-- The loop that sends the request: the code's two ends, and the model's own.
pub data Delivery : Type 0 where
  delivered lost out_of_turns : Delivery

-- The loop that reads the response: the bytes behind the headers, or a text.
pub data Response : Type 0 where
  upgraded not_upgraded : Bytes → Response

-- The loop over the groups of three bytes, and the last byte.
unfoldable pub key_groups : ℕ → ℕ → Bytes → Bytes
key_groups zero i raw =
    let last = get_or raw 15 0 * 2 ^ 16 in sextet last 18 ∷ sextet last 12 ∷ b'=' ∷ b'=' ∷ []
key_groups (suc k) i raw =
    let v =
      get_or raw (i * 3) 0 * 2 ^ 16 + get_or raw (i * 3 + 1) 0 * 2 ^ 8 + get_or raw (i * 3 + 2) 0 in
    sextet v 18 ∷ sextet v 12 ∷ sextet v 6 ∷ sextet v 0 ∷ key_groups k (i + 1) raw

unfoldable pub handshake_key : Bytes → Bytes
unfolding key_groups
handshake_key raw = key_groups 5 0 raw

-- `curl_url`
unfoldable pub curl_url : Url → Bytes
curl_url u = clip 1024 (
    (if u.secure then codes "https" else codes "http")
    ++ (codes "://" ++ (u.host ++ (codes ":" ++ (u.port ++ u.path)))))

module _ (curl : Curl) where
  open curl use {
    World, Handle, easy_init, perform, has_socket, easy_send, easy_recv, wait, cleanup, new_net,
    random, alloc, sleep,
  }

  -- `net_send`
  unfoldable pub net_send : World → Handle → Bytes → ℤ × World
  net_send w h buf =
      let (t, w') = easy_send w h buf in
      (elim t [ not_now ↦ pos 0 | broken ↦ negsuc 0 | moved n ↦ pos n ], w')

  -- `net_recv`; a clean close is no bytes, and ends the connection.
  abbrev pub fetched : Transfer Bytes → Received
  fetched not_now = got []
  fetched broken = dead
  fetched (moved []) = dead
  fetched (moved (c ∷ s)) = got (c ∷ s)

  unfoldable pub net_recv : World → Handle → ℕ → Received × World
  net_recv w h room = let (t, w') = easy_recv w h room in (fetched t, w')

  -- The `io` of a connection.
  abbrev pub net_io : Handle → Io
  net_io h = record {
    World = World;
    send = λ w b. net_send w h b;
    recv = λ w n. net_recv w h n;
    random = random;
    alloc = alloc;
    sleep = sleep;
  }

  -- `ff_net_close` of a connection that is freed with it.
  unfoldable pub net_close : World → Handle → World
  net_close w h = cleanup w h

  -- The loop that sends the request from `sent` on, at most `turns` times.
  unfoldable pub send_request : ℕ → World → Handle → Bytes → ℕ → Delivery × World
  unfolding net_send
  send_request zero w h req sent = (out_of_turns, w)
  send_request (suc turns) w h req sent = elim (ltb sent (length req)) [
    | false ↦ (delivered, w)
    | true ↦
        let (r, w') = net_send w h (drop sent req) in
        elim r [
          | negsuc n ↦ (lost, w')
          | pos zero ↦ send_request turns (wait w' h 100 true) h req sent
          | pos (suc n) ↦ send_request turns w' h req (sent + suc n)
        ]
  ]

  module _ (stack : Bytes) where
    -- The loop that reads the response, with the turns left of 300; `have` is what is in `buf`.
    unfoldable pub read_upgrade : ℕ → World → Handle → Bytes → Bytes → Response × World
    unfolding handshake_check net_recv
    read_upgrade zero w h key have =
        (not_upgraded (codes "the server never completed the upgrade"), w)
    read_upgrade (suc spins) w h key have = elim (handshake_check stack have key) [
      | refused why ↦ (not_upgraded (refusal_text why), w)
      | accepted hlen ↦
          if ltb conn_buf (length have - hlen)
          then (not_upgraded (codes "the server sent more than we can hold"), w)
          else (upgraded (drop hlen have), w)
      | more ↦ elim (leb 8192 (length have)) [
        | true ↦ (not_upgraded (codes "the server's response headers do not end"), w)
        | false ↦
            let (r, w') = net_recv w h (8192 - length have) in
            elim r [
              | dead ↦ (not_upgraded (codes "the connection died waiting for the upgrade"), w')
              | got [] ↦ read_upgrade spins (wait w' h 100 false) h key have
              | got (c ∷ s) ↦ read_upgrade spins w' h key (have ++ (c ∷ s))
            ]
      ]
    ]

    -- What is returned once the response is read.
    unfoldable pub of_response : Handle → Conn → ℕ → Response × World → Opened Handle × World
    unfolding net_close
    of_response h c errcap (not_upgraded why, w) = (not_opened (clip errcap why), net_close w h)
    of_response h c errcap (upgraded extra, w) = (opened h (record c { rx = extra }), w)

    -- What follows the sending of the request.
    unfoldable pub after_request :
        Handle → Conn → Bytes → ℕ → Delivery × World → Opened Handle × World
    unfolding read_upgrade of_response
    after_request h c key errcap (out_of_turns, w) = (unsent, w)
    after_request h c key errcap (lost, w) = (
      not_opened (clip errcap (codes "the connection died sending the upgrade request")),
      net_close w h,
    )
    after_request h c key errcap (delivered, w) =
        of_response h c errcap (read_upgrade 300 w h key [])

    -- `ff_net_ws_open` from the connection's buffers on.
    unfoldable pub upgrade : ℕ → World → Handle → Url → ℕ → Opened Handle × World
    unfolding conn_init handshake_request handshake_key send_request after_request
    upgrade turns w h u errcap =
        let (ok, c, w1) = conn_init (net_io h) w in
        let (raw, w2) = random w1 16 in
        if not ok
        then (not_opened (clip errcap (codes "out of memory")), net_close w1 h)
        else elim raw [
          | none ↦ (
            not_opened (clip errcap (codes "no random source for the handshake key")),
            net_close w2 h,
          )
          | some bytes ↦ elim (handshake_request u.host u.path (handshake_key bytes) 1024) [
            | none ↦ (
              not_opened (clip errcap (codes "the upgrade request would not fit")),
              net_close w2 h,
            )
            | some req ↦
                after_request h c (handshake_key bytes) errcap (send_request turns w2 h req 0)
          ]
        ]

    -- `ff_net_ws_open` from the handle on.
    unfoldable pub connect : ℕ → World → Handle → Url → ℕ → Opened Handle × World
    unfolding curl_url upgrade
    connect turns w h u errcap =
        let (trouble, w1) = perform w h (curl_url u) in
        let (usable, w2) = has_socket w1 h in
        elim trouble [
          | some why ↦ (
            not_opened
                (clip errcap (codes "could not connect to " ++ (u.host ++ (codes ": " ++ why)))),
            cleanup w1 h,
          )
          | none ↦ elim usable [
            | false ↦ (
              not_opened (
                  clip errcap (
                    codes "connected to "
                    ++ (u.host ++ codes " but could not get the socket to wait on"))),
              cleanup w2 h,
            )
            | true ↦ upgrade turns w2 h u errcap
          ]
        ]

    -- `ff_net_ws_open`
    unfoldable pub ws_open : ℕ → World → Bytes → ℕ → Opened Handle × World
    unfolding url_parse connect
    ws_open turns w url errcap = elim (url_parse url) [
      | none ↦
          (not_opened (clip errcap (codes "could not read the URL '" ++ (url ++ codes "'"))), w)
      | some u ↦
          let (made, w1) = new_net w in
          let (handle, w2) = easy_init w1 in
          elim made [
            | false ↦ (not_opened (clip errcap (codes "out of memory")), w1)
            | true ↦ elim handle [
              | none ↦ (not_opened (clip errcap (codes "curl_easy_init failed")), w2)
              | some h ↦ connect turns w2 h u errcap
            ]
          ]
    ]
