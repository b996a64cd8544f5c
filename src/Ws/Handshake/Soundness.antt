-- ===== src/Ws/Handshake/Soundness.antt =====
-- What a response must hold for `ff_ws_handshake_check` to accept it, and when it waits.
use obs_foxfire.Ws.Digest.{accept_for}
use obs_foxfire.Ws.Handshake.Fields.{IsCaseless, HasElement, HasHeader, value_is-IsCaseless}
use obs_foxfire.Ws.Handshake.Search.{value_has-HasElement, header_value-HasHeader}
use obs_foxfire.Ws.Handshake.{
  is_blank_line, header_end, header_value, header_passes, value_is, value_has, atoi, check_accept,
  check_headers, handshake_check, refused, more, accepted, Refusal, no_end, not_http, no_upgrade,
  no_connection, status,
}
use obs_foxfire.Prelude.{
  ltb, ==_iff, Bool-cases, Option-cases, length, take, drop, take-append-drop, Bytes, codes,
  bytes_eq, bytes_eq_iff, ℕ, ◌+◌, ◌≤◌, ◌<◌, ◌≡◌, refl, sym, ap, ◌∙◌, subst, ◌≢◌, ◌↔◌, inl, inr,
  Bool, true, false, not, ◌||◌, Option, none, some, [], ◌∷◌, ◌++◌, arith,
}
use obs_foxfire.Prelude.Int.{pos, eqb_ℤ, eq_of_parts}

-- The blank line that `header_end` finds.
header_end_lem :
    (s : Bytes) (n : ℕ)
    → header_end s ≡ some n
    → (p q : Bytes) × (s ≡ p ++ (codes "\r\n\r\n" ++ q)) × (n ≡ length p + 4)
unfolding header_end
header_end_lem [] n h = ground arith
header_end_lem (c ∷ s) n h = elim (Bool-cases (is_blank_line (c ∷ s))) [
  | inl e ↦ (
    [],
    drop 4 (c ∷ s),
    sym (take-append-drop 4 (c ∷ s))
        ∙ ap (λ x. x ++ drop 4 (c ∷ s)) ((bytes_eq_iff (take 4 (c ∷ s)) (codes "\r\n\r\n")).0 e),
    ground (arith, h, e),
  )
  | inr e ↦ elim (Option-cases (header_end s)) [
    | inl none_there ↦ ground (arith, h, e, none_there)
    | inr (m, there) ↦
        let (p, q, split, len) = header_end_lem s m there in
        (c ∷ p, q, ap (◌∷◌ c) split, ground (arith, h, e, there, len))
  ]
]

-- What is checked of an accepted response: `n` is the length of headers that end in a blank line, the
-- status is 101, and the headers offer the upgrade and carry the accept value of the key.
pub record IsUpgrade (stack resp key : Bytes) (n : ℕ) : Type 0 where
  pub ends : (p q : Bytes) × (resp ≡ p ++ (codes "\r\n\r\n" ++ q)) × (n ≡ length p + 4)
  pub is_http : take 7 resp ≡ codes "HTTP/1."
  pub switches : atoi (drop 9 resp) ≡ pos 101
  pub upgrades :
      (v : Bytes) × HasHeader (codes "Upgrade") v (take n resp) × IsCaseless v (codes "websocket")
  pub connects :
      (v : Bytes) × HasHeader (codes "Connection") v (take n resp) × HasElement (codes "Upgrade") v
  pub accepts :
      (v : Bytes) × HasHeader (codes "Sec-WebSocket-Accept") v (take n resp)
      × (accept_for stack key 64 ≡ some v)

header_passes_lem :
    (o : Option Bytes) (test : Bytes → Bool)
    → header_passes o test ≡ true
    → (v : Bytes) × (o ≡ some v) × (test v ≡ true)
header_passes_lem none test h = ground arith
header_passes_lem (some v) test h = (v, refl, h)

upgrades_lem :
    (heads : Bytes)
    → header_passes (header_value heads (codes "Upgrade")) (λ v. value_is v (codes "websocket"))
      ≡ true
    → (v : Bytes) × HasHeader (codes "Upgrade") v heads × IsCaseless v (codes "websocket")
upgrades_lem heads h =
    let (v, there, good) = header_passes_lem _ (λ v. value_is v (codes "websocket")) h in
    (v, header_value-HasHeader heads _ v there, value_is-IsCaseless v (codes "websocket") good)

connects_lem :
    (heads : Bytes)
    → header_passes (header_value heads (codes "Connection")) (λ v. value_has v (codes "Upgrade"))
      ≡ true
    → (v : Bytes) × HasHeader (codes "Connection") v heads × HasElement (codes "Upgrade") v
connects_lem heads h =
    let (v, there, good) = header_passes_lem _ (λ v. value_has v (codes "Upgrade")) h in
    (v, header_value-HasHeader heads _ v there, value_has-HasElement v (codes "Upgrade") good)

check_accept_lem :
    (o want : Option Bytes) (hlen n : ℕ)
    → check_accept o want hlen ≡ accepted n
    → (hlen ≡ n) × ((v : Bytes) × (o ≡ some v) × (want ≡ some v))
unfolding check_accept
check_accept_lem none want hlen n h = ground arith
check_accept_lem (some v) none hlen n h = ground arith
check_accept_lem (some v) (some w) hlen n h = elim (Bool-cases (bytes_eq v w)) [
  | inl e ↦ (ground (arith, h, e), (v, refl, ap some (sym ((bytes_eq_iff v w).0 e))))
  | inr e ↦ ground (arith, h, e)
]

refused_ne : (r : Refusal) (n : ℕ) → refused r ≢ accepted n
refused_ne r n h = ground (arith, h)

more_ne : (n : ℕ) → more ≢ accepted n
more_ne n h = ground (arith, h)

or_not : (a b : Bool) → (a || not b) ≡ false → b ≡ true
or_not a b h = ground arith

check_headers_lem :
    (stack resp key : Bytes) (hlen n : ℕ)
    → check_headers stack resp key hlen ≡ accepted n
    → header_end resp ≡ some hlen
    → (hlen ≡ n) × IsUpgrade stack resp key hlen
unfolding check_headers
check_headers_lem stack resp key hlen n h e =
    let heads = take hlen resp in
    elim (Bool-cases (ltb hlen 12 || not (bytes_eq (take 7 resp) (codes "HTTP/1.")))) [
      | inl a ↦ absurd (refused_ne not_http n (rw a at h))
      | inr a ↦ elim (Bool-cases (eqb_ℤ (atoi (drop 9 resp)) (pos 101))) [
        | inr b ↦ absurd (refused_ne (status (atoi (drop 9 resp))) n (rw (a, b) at h))
        | inl b ↦
            elim (Bool-cases (
              header_passes (header_value heads (codes "Upgrade"))
                (λ v. value_is v (codes "websocket")))) [
                  | inr c ↦ absurd (refused_ne no_upgrade n (rw (a, b, c) at h))
                  | inl c ↦
                      elim (Bool-cases (
                        header_passes (header_value heads (codes "Connection"))
                          (λ v. value_has v (codes "Upgrade")))) [
                            | inr d ↦ absurd (refused_ne no_connection n (rw (a, b, c, d) at h))
                            | inl d ↦
                                let (same, (v, there, expected)) =
                                  check_accept_lem
                                    (header_value heads (codes "Sec-WebSocket-Accept"))
                                    (accept_for stack key 64) hlen n (rw (a, b, c, d) at h) in
                                (
                                  same,
                                  record {
                                    ends = header_end_lem resp hlen e;
                                    is_http = (bytes_eq_iff (take 7 resp) (codes "HTTP/1.")).0 (
                                        or_not (ltb hlen 12)
                                          (bytes_eq (take 7 resp) (codes "HTTP/1.")) a);
                                    switches = eq_of_parts _ _ ((==_iff _ _).0 b);
                                    upgrades = upgrades_lem heads c;
                                    connects = connects_lem heads d;
                                    accepts = (v, header_value-HasHeader heads _ v there, expected);
                                  },
                                )
                          ]
                ]
      ]
    ]

-- A response is accepted only if it starts with headers that end in a blank line, the number returned
-- being their length; that say HTTP/1 and the status 101; that have, letters compared without their
-- case, a line `Upgrade: websocket`, a line `Connection:` with `Upgrade` among the elements of its list,
-- and a line `Sec-WebSocket-Accept:` with the value that is expected for the key.
pub handshake_sound :
    (stack resp key : Bytes) (n : ℕ)
    → handshake_check stack resp key ≡ accepted n
    → IsUpgrade stack resp key n
unfolding handshake_check
handshake_sound stack resp key n h = elim (Option-cases (header_end resp)) [
  | inl e ↦ elim (Bool-cases (ltb 8192 (length resp))) [
    | inl long ↦ absurd (refused_ne (no_end (length resp)) n (rw (e, handshake_check, long) at h))
    | inr short ↦ absurd (more_ne n (rw (e, handshake_check, short) at h))
  ]
  | inr (hlen, e) ↦
      let (same, up) = check_headers_lem stack resp key hlen n (rw (e, handshake_check) at h) e in
      subst (IsUpgrade stack resp key) same up
]

-- A response whose headers have not ended is never refused while it has at most 8192 bytes, and always
-- when it has more.
pub handshake_waits :
    (stack resp key : Bytes)
    → header_end resp ≡ none
    → ((handshake_check stack resp key ≡ more) ↔ (length resp ≤ 8192))
      × ((handshake_check stack resp key ≡ refused (no_end (length resp))) ↔ (8192 < length resp))
unfolding handshake_check
handshake_waits stack resp key e =
    rw (e, handshake_check)
      (
        (λ x. ground (arith, x), λ x. ground (arith, x)),
        (λ x. ground (arith, x), λ x. ground (arith, x)),
      )
