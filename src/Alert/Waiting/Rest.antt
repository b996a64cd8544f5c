-- ===== src/Alert/Waiting/Rest.antt =====
-- The alerts that wait are all started, and the source of src/ff-alert-source.c comes to rest.
use obs_foxfire.Queue.{Event, Queue}
use obs_foxfire.Queue.Invariant.{IsValid}
use obs_foxfire.Alert.{Real, Host, Source}
use obs_foxfire.Alert.Play.{body_of, start_next}
use obs_foxfire.Alert.Steps.{fired, waiting}
use obs_foxfire.Alert.Fates.{Started}
use obs_foxfire.Alert.Waiting.{
  Next, nothing_more, one_more, start_next-Next, frames, later, frames-add, tick_idle, frames-Ends,
}
use obs_foxfire.Prelude.{
  Bool-cases, length, ℕ, suc, ◌+◌, ◌*◌, ◌≤◌, ◌≡◌, refl, sym, ap, ◌∙◌, inl, inr, false, List, [],
  ◌∷◌, ◌++◌, map, append-nil, append_assoc, arith,
}

module _ (host : Host) (dt : Real) where
  -- What the source comes to after at most `n` frames: it is idle, nothing waits, and the alerts of
  -- `ws` were started, in their order.
  abbrev Drained : ℕ → List Event → Source → Source → Type 0
  Drained n ws a c =
      (t : ℕ) × (t ≤ n)
      × ((frames host dt t c).playing ≡ false)
      × (waiting (frames host dt t c) ≡ [])
      × (fired (frames host dt t c).calls ≡ fired a.calls ++ map (body_of host a.kinds) ws)

  frames_sum : (n l t u : ℕ) → t ≤ suc n → u ≤ suc n * l → t + u ≤ suc n * suc l
  frames_sum n l t u p q = grind arith

  -- An alert that has just started, and those behind it.
  after_start :
      (n : ℕ) (e : Event) (ws : List Event) (q : Queue) (a c : Source)
      → Started host (record a { queue = q }) e c
      → host.lt_real (later host dt (suc n) host.zero_real) a.duration ≡ false
      → (b : Source) × ((t : ℕ) × (t ≤ suc n) × (frames host dt t c ≡ start_next host b))
        × (b.queue ≡ q)
        × (b.paused ≡ a.paused)
        × (b.playing ≡ false)
        × (b.duration ≡ a.duration)
        × (b.kinds ≡ a.kinds)
        × (fired b.calls ≡ fired a.calls ++ body_of host a.kinds e ∷ [])
  after_start n e ws q a c st late =
      let late_c : host.lt_real (later host dt (suc n) c.elapsed) c.duration ≡ false =
        rw (st.started_elapsed, st.started_duration) late in
      let (t, b, le, runs, o) = frames-Ends host dt n c st.started_playing late_c in
      (
        b,
        (t, le, runs),
        o.over_queue ∙ st.started_queue,
        o.over_paused ∙ st.started_paused,
        o.over_playing,
        o.over_duration ∙ st.started_duration,
        o.over_kinds ∙ st.started_kinds,
        o.over_fired ∙ st.started_fired,
      )

  -- From the look for the next alert on, with `n + 1` frames for each.
  drains :
      (n : ℕ) (ws : List Event) (a c : Source)
      → Next host a c
      → waiting a ≡ ws
      → a.paused ≡ false
      → a.playing ≡ false
      → host.lt_real (later host dt (suc n) host.zero_real) a.duration ≡ false
      → Drained (suc n * length ws) ws a c
  unfolding frames
  drains n [] a c (nothing_more none_left s) w up p late = (
    0,
    omega arith,
    s.same_playing ∙ p,
    rw s.same_queue none_left,
    s.same_fired ∙ sym (append-nil _),
  )
  drains n [] a c (one_more q e first v st) w up p late = absurd (ground (arith, sym w ∙ first))
  drains n (e ∷ ws) a c (nothing_more none_left s) w up p late =
      absurd (ground (arith, sym w ∙ none_left))
  drains n (e ∷ ws) a c (one_more q e' first v st) w up p late =
      let (
        b,
        (t, le, runs),
        same_queue,
        same_paused,
        ended,
        same_duration,
        same_kinds,
        same_fired,
      ) =
        after_start n e' ws q a c st late in
      let (u, le', idle, empty, all) =
        drains n ws b (start_next host b)
          (start_next-Next host b (same_paused ∙ up) (rw same_queue v))
          (rw same_queue (ground (arith, sym w ∙ first))) (same_paused ∙ up) ended
          (rw same_duration late) in
      let run = frames-add host dt t u c ∙ ap (frames host dt u) runs in
      let same_event : e' ≡ e = ground (arith, sym w ∙ first) in
      let f = body_of host a.kinds in
      (
        t + u,
        frames_sum n (length ws) t u le le',
        rw run idle,
        rw run empty,
        ap (λ d. fired d.calls) run
            ∙ all
            ∙ ap (λ k. fired b.calls ++ map (body_of host k) ws) same_kinds
            ∙ ap (λ l. l ++ map f ws) same_fired
            ∙ append_assoc (fired a.calls) (f e' ∷ []) (map f ws)
            ∙ ap (λ x. fired a.calls ++ f x ∷ map f ws) same_event,
      )

  -- If `n + 1` frames of `dt` take any alert past its duration, the one on the screen from where it
  -- stands included, then a source that is not paused comes to rest: after some number of such
  -- frames, at most `n + 1` for each alert that waits and `n + 1` more, nothing is on the screen,
  -- nothing waits, and every alert that waited was started, in the order in which they waited.
  pub every_alert_shown :
      (n : ℕ) (a : Source)
      → IsValid a.queue
      → a.paused ≡ false
      → host.lt_real (later host dt (suc n) host.zero_real) a.duration ≡ false
      → host.lt_real (later host dt (suc n) a.elapsed) a.duration ≡ false
      → Drained (suc n * suc (length (waiting a))) (waiting a) a a
  unfolding frames
  every_alert_shown n a v up late late_now = elim (Bool-cases a.playing) [
    | inl on ↦
        let (t, b, le, runs, o) = frames-Ends host dt n a on late_now in
        let (u, le', idle, empty, all) =
          drains n (waiting a) b (start_next host b)
            (start_next-Next host b (o.over_paused ∙ up) (rw o.over_queue v)) (rw o.over_queue refl)
            (o.over_paused ∙ up) o.over_playing (rw o.over_duration late) in
        let run = frames-add host dt t u a ∙ ap (frames host dt u) runs in
        (
          t + u,
          frames_sum n (length (waiting a)) t u le le',
          rw run idle,
          rw run empty,
          ap (λ d. fired d.calls) run
              ∙ all
              ∙ ap (λ k. fired b.calls ++ map (body_of host k) (waiting a)) o.over_kinds
              ∙ ap (λ l. l ++ map (body_of host a.kinds) (waiting a)) o.over_fired,
        )
    | inr off ↦
        let (t, le, idle, empty, all) =
          drains n (waiting a) a (start_next host a) (start_next-Next host a up v) refl up off
            late in
        let run = ap (frames host dt t) (tick_idle host dt a off) in
        (
          suc t,
          omega (arith, frames_sum n (length (waiting a)) 1 t (omega arith) le),
          rw run idle,
          rw run empty,
          ap (λ d. fired d.calls) run ∙ all,
        )
  ]
