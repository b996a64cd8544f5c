-- ===== src/Net/Open/Upgrade.antt =====
-- What opening a socket keeps of the bytes that arrive, and what it gives back when it fails.
use obs_foxfire.Net.Open.{
  not_opened, opened, unsent, key_groups, handshake_key, curl_url, net_recv, net_io, net_close,
  send_request, read_upgrade, of_response, after_request, upgrade, connect, Curl, Opened, Delivery,
  delivered, lost, out_of_turns, Response, upgraded, not_upgraded,
}
use obs_foxfire.Ws.Conn.{dead, got, conn_buf, conn_init, Conn, Received}
use obs_foxfire.Ws.Handshake.{
  handshake_request, refused, more, accepted, handshake_check, Refusal, Checked,
}
use obs_foxfire.Ws.Digest.{b64_groups}
use obs_foxfire.Prelude.{
  ltb, leb, Bool-cases, Option-cases, length, drop, length-drop, Bytes, ℕ, zero, suc, ◌-◌, ◌≤◌, ◌≡◌,
  refl, sym, ap, subst, ◌⊎◌, inl, inr, false, [], ◌∷◌, ◌++◌, arith,
}
use obs_foxfire.Net.{Url}

-- The key that is written group by group is the base64 text of the sixteen random bytes.
pub handshake_key-b64_groups :
    (a b c d e f g h i j k l m n o p : ℕ)
    → (let raw : Bytes = a ∷ b ∷ c ∷ d ∷ e ∷ f ∷ g ∷ h ∷ i ∷ j ∷ k ∷ l ∷ m ∷ n ∷ o ∷ p ∷ [] in
        handshake_key raw ≡ b64_groups raw)
unfolding handshake_key key_groups b64_groups
handshake_key-b64_groups a b c d e f g h i j k l m n o p = refl

module _ (curl : Curl) (h : curl.Handle) where
  open curl use {World, wait}

  -- From one state of the world and of the buffer to another, by reads that `net_recv` answers.
  pub data Reads : World → Bytes → World → Bytes → Type 0 where
    stop : {w : World} {have : Bytes} → Reads w have w have
    waits :
        {w w1 w' : World} {have all : Bytes}
        → net_recv curl w h (8192 - length have) ≡ (got [], w1)
        → Reads (wait w1 h 100 false) have w' all
        → Reads w have w' all
    takes :
        {w w1 w' : World} {have all : Bytes} {c : ℕ} {s : Bytes}
        → net_recv curl w h (8192 - length have) ≡ (got (c ∷ s), w1)
        → Reads w1 (have ++ (c ∷ s)) w' all
        → Reads w have w' all

  -- What is known once the response is accepted.
  pub record IsKept (stack key : Bytes) (w : World) (have : Bytes) (w' : World) (extra : Bytes)
      : Type 0 where
    pub all : Bytes
    pub hlen : ℕ
    pub reads : Reads w have w' all
    pub checked : handshake_check stack all key ≡ accepted hlen
    pub rest : extra ≡ drop hlen all
    pub fits : length extra ≤ conn_buf

  upgraded_same : {a b : Bytes} → upgraded a ≡ upgraded b → a ≡ b
  upgraded_same e = cc

  Checked-cases :
      (r : Checked)
      → ((why : Refusal) × (r ≡ refused why)) ⊎ ((r ≡ more) ⊎ ((n : ℕ) × (r ≡ accepted n)))
  Checked-cases (refused why) = inl (why, refl)
  Checked-cases more = inr (inl refl)
  Checked-cases (accepted n) = inr (inr (n, refl))

  Received-cases :
      (r : Received) → (r ≡ dead) ⊎ ((r ≡ got []) ⊎ ((b : Bytes × ℕ) × (r ≡ got (b.1 ∷ b.0))))
  Received-cases dead = inl refl
  Received-cases (got []) = inr (inl refl)
  Received-cases (got (c ∷ s)) = inr (inr ((s, c), refl))

  at_most : (n m : ℕ) → ltb n m ≡ false → m ≤ n
  at_most n m e = ground (arith, e)

  drop_fits : (n hlen : ℕ) (b : Bytes) → ltb n (length b - hlen) ≡ false → length (drop hlen b) ≤ n
  drop_fits n hlen b e = rw (length-drop hlen b) (at_most n (length b - hlen) e)

  -- Of what is read up to an accepted response, the bytes behind the headers are kept.
  pub read_upgrade-IsKept :
      (stack : Bytes) (spins : ℕ) (w : World) (key have extra : Bytes)
      → (read_upgrade curl stack spins w h key have).0 ≡ upgraded extra
      → IsKept stack key w have (read_upgrade curl stack spins w h key have).1 extra
  unfolding read_upgrade
  read_upgrade-IsKept stack zero w key have extra e = ground (arith, e)
  read_upgrade-IsKept stack (suc spins) w key have extra e =
      elim (Checked-cases (handshake_check stack have key)) [
        | inl (why, r) ↦ ground (arith, (rw (read_upgrade, r) at e))
        | inr (inr (hlen, r)) ↦ elim (Bool-cases (ltb conn_buf (length have - hlen))) [
          | inl long ↦ ground (arith, (rw (read_upgrade, r, long) at e))
          | inr fits ↦
              let same : drop hlen have ≡ extra = upgraded_same (rw (read_upgrade, r, fits) at e) in
              rw (read_upgrade, r, fits)
                (record {
                  all = have;
                  hlen = hlen;
                  reads = stop;
                  checked = r;
                  rest = sym same;
                  fits = subst (λ b. length b ≤ conn_buf) same (drop_fits conn_buf hlen have fits);
                })
        ]
        | inr (inl r) ↦ elim (Bool-cases (leb 8192 (length have))) [
          | inl full ↦ ground (arith, (rw (read_upgrade, r, full) at e))
          | inr room ↦
              let w1 = (net_recv curl w h (8192 - length have)).1 in
              elim (Received-cases (net_recv curl w h (8192 - length have)).0) [
                | inl gone ↦ ground (arith, (rw (read_upgrade, r, room, gone) at e))
                | inr (inl none_yet) ↦
                    let k =
                      read_upgrade-IsKept stack spins (wait w1 h 100 false) key have extra
                        (rw (read_upgrade, r, room, none_yet) at e) in
                    rw (read_upgrade, r, room, none_yet)
                      (record {
                        all = k.all;
                        hlen = k.hlen;
                        reads = waits (ap (λ x. (x, w1)) none_yet) k.reads;
                        checked = k.checked;
                        rest = k.rest;
                        fits = k.fits;
                      })
                | inr (inr ((s, c), some_came)) ↦
                    let k =
                      read_upgrade-IsKept stack spins w1 key (have ++ (c ∷ s)) extra
                        (rw (read_upgrade, r, room, some_came) at e) in
                    rw (read_upgrade, r, room, some_came)
                      (record {
                        all = k.all;
                        hlen = k.hlen;
                        reads = takes (ap (λ x. (x, w1)) some_came) k.reads;
                        checked = k.checked;
                        rest = k.rest;
                        fits = k.fits;
                      })
              ]
        ]
      ]

  -- A run of `ff_net_ws_open` that fails gives the handle back: the last thing done with the world is the clean-up.
  pub data GivesBack : Opened curl.Handle × World → Type 0 where
    kept : {w : World} {c : Conn} → GivesBack (opened h c, w)
    gone : {w : World} {why : Bytes} → GivesBack (not_opened why, curl.cleanup w h)
    goes_on : {w : World} → GivesBack (unsent, w)

  of_response-GivesBack :
      (stack : Bytes) (c : Conn) (errcap : ℕ) (r : Response × World)
      → GivesBack (of_response curl stack h c errcap r)
  unfolding of_response net_close
  of_response-GivesBack stack c errcap (not_upgraded why, w) = gone
  of_response-GivesBack stack c errcap (upgraded extra, w) = kept

  after_request-GivesBack :
      (stack : Bytes) (c : Conn) (key : Bytes) (errcap : ℕ) (d : Delivery × World)
      → GivesBack (after_request curl stack h c key errcap d)
  unfolding after_request net_close
  after_request-GivesBack stack c key errcap (out_of_turns, w) = goes_on
  after_request-GivesBack stack c key errcap (lost, w) = gone
  after_request-GivesBack stack c key errcap (delivered, w) =
      of_response-GivesBack stack c errcap (read_upgrade curl stack 300 w h key [])

  upgrade-GivesBack :
      (stack : Bytes) (turns : ℕ) (w : World) (u : Url) (errcap : ℕ)
      → GivesBack (upgrade curl stack turns w h u errcap)
  unfolding upgrade net_close
  upgrade-GivesBack stack turns w u errcap =
      let (ok, c, w1) = conn_init (net_io curl h) w in
      let (raw, w2) = curl.random w1 16 in
      elim (Bool-cases ok) [
        | inr failed ↦ rw (upgrade, failed) gone
        | inl done ↦ elim (Option-cases raw) [
          | inl e ↦ rw (upgrade, done, e) gone
          | inr (bytes, e) ↦
              elim (Option-cases (handshake_request u.host u.path (handshake_key bytes) 1024)) [
                | inl e1 ↦ rw (upgrade, done, e, e1) gone
                | inr (req, e1) ↦
                    rw (upgrade, done, e, e1)
                      (after_request-GivesBack stack c (handshake_key bytes) errcap
                        (send_request curl turns w2 h req 0))
              ]
        ]
      ]

  -- Once there is a handle, an attempt to open a socket keeps it with the connection or cleans it up as the last
  -- thing it does, whatever goes wrong on the way.
  pub connect-GivesBack :
      (stack : Bytes) (turns : ℕ) (w : World) (u : Url) (errcap : ℕ)
      → GivesBack (connect curl stack turns w h u errcap)
  unfolding connect
  connect-GivesBack stack turns w u errcap =
      let (trouble, w1) = curl.perform w h (curl_url u) in
      let (usable, w2) = curl.has_socket w1 h in
      elim (Option-cases trouble) [
        | inr (why, e) ↦ rw (connect, e) gone
        | inl e ↦ elim (Bool-cases usable) [
          | inr none_there ↦ rw (connect, e, none_there) gone
          | inl there ↦ rw (connect, e, there) (upgrade-GivesBack stack turns w2 u errcap)
        ]
      ]
