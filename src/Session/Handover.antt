-- ===== src/Session/Handover.antt =====
-- The changeover to a replacement socket.
use obs_foxfire.Queue.{Event}
use obs_foxfire.EventSub.{Json, Result, welcome, reconnect, Es, handle}
use obs_foxfire.EventSub.Messages.{Promise, handle-Promise}
use obs_foxfire.Prelude.{
  if◌then◌else◌, Bytes, is_empty, clip, ◌≡◌, refl, sym, subst, ◌≢◌, ◌↔◌, true, false, not, [], ◌∷◌,
  arith,
}
use obs_foxfire.Prelude.Int.{
  ℤ, pos, ◌+ℤ◌, ◌-ℤ◌, ltb_ℤ, eqb_ℤ, ◌≤ℤ◌, +ℤ_parts, -ℤ_parts, eq_of_parts,
}
use obs_foxfire.Session.{
  opened, handover_secs, idle, decide, on_message, in_handover, welcomed, handover_expired, adopt,
  Session, reconnect_now,
}

decide-reconnect :
    (s : Session) (r : Result) (now : ℤ)
    → (decide s r now).0 ≡ reconnect_now
    → (r ≡ reconnect)
      × ((decide s r now).1.url ≡ clip 1024 s.es.reconnect_url)
      × ((decide s r now).1.handover_started ≡ now)
unfolding decide
decide-reconnect s reconnect now h = (refl, refl, refl)
decide-reconnect s welcome now h = ground arith
decide-reconnect s _ now h = ground arith

is_empty-clip : (s : Bytes) → is_empty s ≡ false → is_empty (clip 1024 s) ≡ false
is_empty-clip [] h = cc
is_empty-clip (c ∷ s) h = refl

Promise-reconnect :
    (s s' : Es) (out out' : Event) (r : Result)
    → r ≡ reconnect
    → Promise s s' out out' r
    → is_empty s'.reconnect_url ≡ false
Promise-reconnect s s' out out' reconnect e p = p.0
Promise-reconnect s s' out out' _ e p = ground arith

not_zero : (now : ℤ) → now ≢ pos 0 → not (eqb_ℤ now (pos 0)) ≡ true
not_zero now ne = ground (arith, eq_of_parts now (pos 0))

expired_iff :
    (now t : ℤ)
    → now ≢ pos 0
    → ((if eqb_ℤ now (pos 0) then false else ltb_ℤ handover_secs (t -ℤ now)) ≡ true)
      ↔ (now +ℤ pos 31 ≤ℤ t)
expired_iff now t ne = (
  λ h. ground (arith, -ℤ_parts t now, +ℤ_parts now (pos 31), eq_of_parts now (pos 0)),
  λ h. ground (arith, -ℤ_parts t now, +ℤ_parts now (pos 31), eq_of_parts now (pos 0)),
)

-- A message that starts a changeover at a time `now` other than 0 leaves an address to connect to and
-- a session in handover, and the changeover is given up exactly when more than 30 seconds have
-- passed since.
pub reconnect_window :
    (j : Json) (s : Session) (json : Bytes) (now t : ℤ) (out : Event)
    → now ≢ pos 0
    → (on_message j s json now out).0 ≡ reconnect_now
    → (let s' = (on_message j s json now out).1 in
        (is_empty s'.url ≡ false)
        × (in_handover s' ≡ true)
        × ((handover_expired s' t ≡ true) ↔ (now +ℤ pos 31 ≤ℤ t)))
unfolding on_message in_handover handover_expired
reconnect_window j s json now t out ne h =
    let s1 : Session = record s {
      es = (handle j s.es json out).1;
      last_message = now;
      reason = [];
    } in
    let d = decide-reconnect s1 (handle j s.es json out).0 now h in
    let u =
      Promise-reconnect s.es (handle j s.es json out).1 out (handle j s.es json out).2 _ d.0
        (handle-Promise j s.es json out) in
    (
      subst (λ x. is_empty x ≡ false) (sym d.1) (is_empty-clip _ u),
      subst (λ x. not (eqb_ℤ x (pos 0)) ≡ true) (sym d.2) (not_zero now ne),
      subst
          (λ x.
            ((if eqb_ℤ x (pos 0) then false else ltb_ℤ handover_secs (t -ℤ x)) ≡ true)
            ↔ (now +ℤ pos 31 ≤ℤ t))
          (sym d.2) (expired_iff now t ne),
    )

-- A session that takes over is subscribed, is in no handover and so never expires, keeps its address,
-- is welcomed exactly if the replacement is, and waits for the replacement's keepalive from now on:
-- what it does in silence depends on the old socket no more.
pub adopt_lem :
    (s pending : Session) (now t : ℤ)
    → (let s' = adopt s pending now in
        (s'.subscribed ≡ true)
        × (in_handover s' ≡ false)
        × (handover_expired s' t ≡ false)
        × (s'.url ≡ s.url)
        × (welcomed s' ≡ welcomed pending)
        × ((idle s' t).0 ≡ (idle (record (opened pending now) { es = pending.es }) t).0))
unfolding adopt in_handover handover_expired welcomed idle opened
adopt_lem s pending now t = ground arith
