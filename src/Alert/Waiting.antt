-- ===== src/Alert/Waiting.antt =====
-- How long an alert waits at the source of src/ff-alert-source.c.
pub mod Rest
use native.Mathlib.Nat.{zero-add, suc-add}
use obs_foxfire.Queue.{Event, Queue, pop}
use obs_foxfire.Queue.Invariant.{IsValid, pop-IsValid}
use obs_foxfire.Queue.Fifo.{view}
use obs_foxfire.Queue.Fifo.Ends.{Popped, popped_none, popped_some, pop-Popped}
use obs_foxfire.Alert.{Real, Host, Source}
use obs_foxfire.Alert.Play.{body_of, start_alert, start_next, finish, tick}
use obs_foxfire.Alert.Steps.{fired, waiting, Same, same}
use obs_foxfire.Alert.Fates.{stop_sound-Same, Started, start_alert-Started}
use obs_foxfire.Prelude.{
  ltb, leb, ◌==◌, if◌then◌else◌, ltb→lt, lt→ltb, ==_iff, Bool-cases, Option-cases, length,
  get_elem?, get_or, set, take, drop, replicate, length-append, length-set, length-take,
  length-drop, length-replicate, take_of_le, drop_of_le, take_all, take-append-drop, get_or-append,
  get_or-set_self, get_or-set_ne, Bytes, codes, is_empty, bytes_eq, bytes_eq_iff, clip, length-clip,
  cstr, IsBytes, ℕ, zero, suc, ◌+◌, ◌-◌, ◌*◌, ◌/◌, ◌%◌, ◌^◌, ◌≤◌, ◌<◌, min, bit_xor, bit_and,
  bit_or, ◌≡◌, refl, sym, ap, ◌∙◌, subst, ◌≢◌, ◌↔◌, ◌⊎◌, inl, inr, Bool, true, false, not, ◌&&◌,
  ◌||◌, Option, none, some, List, [], ◌∷◌, ◌++◌, map, append-nil, append_assoc, arith, if_both,
  get_elem?_of_le, drop_nil, drop-drop, given, given_both, given_with, begins,
}
use obs_foxfire.Prelude.Int.{
  ℤ, pos, negsuc, pos_part, neg_part, sub_ℕ, ◌+ℤ◌, ◌-ℤ◌, ltb_ℤ, leb_ℤ, eqb_ℤ, ◌≤ℤ◌, signed32,
  to_int32, ℤ-cases, +ℤ_parts, -ℤ_parts, eq_of_parts, int_laws,
}

-- What `start_next` does when the source is not paused.
pub data Next (host : Host) (a : Source) : Source → Type 0 where
  nothing_more : {b : Source} → waiting a ≡ [] → Same a b → Next host a b
  one_more :
      {b : Source} (q : Queue) (e : Event)
      → waiting a ≡ e ∷ (view q).waiting
      → IsValid q
      → Started host (record a { queue = q }) e b
      → Next host a b

-- The end of an alert, before the next one is looked for.
pub record Over (a b : Source) : Type 0 where
  pub over_kinds : b.kinds ≡ a.kinds
  pub over_queue : b.queue ≡ a.queue
  pub over_paused : b.paused ≡ a.paused
  pub over_duration : b.duration ≡ a.duration
  pub over_playing : b.playing ≡ false
  pub over_fired : fired b.calls ≡ fired a.calls

module _ (host : Host) where
  of_pop :
      (a : Source) (r : Bool × Option Event × Queue)
      → Popped a.queue r
      → IsValid r.2
      → Next host a (
          given r.1 (record a { queue = r.2 }) (λ e. start_alert host (record a { queue = r.2 }) e))
  of_pop a _ (popped_none empty) v = nothing_more empty (same a)
  of_pop a _ (popped_some {q'} e first) v =
      one_more q' e first v (start_alert-Started host (record a { queue = q' }) e)

  pub start_next-Next :
      (a : Source) → a.paused ≡ false → IsValid a.queue → Next host a (start_next host a)
  unfolding start_next
  start_next-Next a h v =
      let (have, next, q) = pop a.queue in
      let b =
        given next (record a { queue = q }) (λ e. start_alert host (record a { queue = q }) e) in
      subst (λ (p : Bool). Next host a (if p then a else b)) (sym h)
        (of_pop a (pop a.queue) (pop-Popped a.queue v) (pop-IsValid v))

  module _ (dt : Real) where
    -- `n` frames that take `dt` each, and the time that they make of `e`.
    unfoldable pub frames : ℕ → Source → Source
    frames zero a = a
    frames (suc n) a = frames n (tick host a dt)

    unfoldable pub later : ℕ → Real → Real
    later zero e = e
    later (suc n) e = later n (host.add_real e dt)

    pub frames-add : (m n : ℕ) (a : Source) → frames (m + n) a ≡ frames n (frames m a)
    unfolding frames
    frames-add zero n a = rw zero-add refl
    frames-add (suc m) n a = rw suc-add (frames-add m n (tick host a dt))

    pub tick_idle : (a : Source) → a.playing ≡ false → tick host a dt ≡ start_next host a
    unfolding tick
    tick_idle a h =
        let t = record a { elapsed = host.add_real a.elapsed dt } in
        ap
          (λ (p : Bool).
            if not p
            then start_next host a
            else if host.lt_real t.elapsed a.duration
            then t
            else start_next host (finish host t))
          h

    tick_playing :
        (a : Source) (early : Bool)
        → a.playing ≡ true
        → host.lt_real (host.add_real a.elapsed dt) a.duration ≡ early
        → (let t = record a { elapsed = host.add_real a.elapsed dt } in
            tick host a dt ≡ (if early then t else start_next host (finish host t)))
    unfolding tick
    tick_playing a early h l =
        let t = record a { elapsed = host.add_real a.elapsed dt } in
        ap
          (λ (p : Bool).
            if not p
            then start_next host a
            else if host.lt_real t.elapsed a.duration
            then t
            else start_next host (finish host t))
          h
        ∙ ap (λ (p : Bool). if p then t else start_next host (finish host t)) l

    finish-Over : (a : Source) → Over a (finish host a)
    unfolding finish
    finish-Over a =
        let s = stop_sound-Same host (record a { playing = false; elapsed = host.zero_real }) in
        record {
          over_kinds = s.same_kinds;
          over_queue = s.same_queue;
          over_paused = s.same_paused;
          over_duration = s.same_duration;
          over_playing = s.same_playing;
          over_fired = s.same_fired;
        }

    retimed : {a b : Source} (r : Real) → Over (record a { elapsed = r }) b → Over a b
    retimed r o = record {
      over_kinds = o.over_kinds;
      over_queue = o.over_queue;
      over_paused = o.over_paused;
      over_duration = o.over_duration;
      over_playing = o.over_playing;
      over_fired = o.over_fired;
    }

    -- The end after at most `n` frames: the next alert is looked for at once.
    abbrev pub Ends : ℕ → Source → Type 0
    Ends n a = (t : ℕ) × (b : Source) × (t ≤ n) × (frames t a ≡ start_next host b) × Over a b

    tick-Ends :
        (n : ℕ) (a : Source)
        → a.playing ≡ true
        → host.lt_real (host.add_real a.elapsed dt) a.duration ≡ false
        → Ends (suc n) a
    unfolding frames
    tick-Ends n a p over =
        let t = record a { elapsed = host.add_real a.elapsed dt } in
        (
          1,
          finish host t,
          omega arith,
          tick_playing a false p over,
          retimed t.elapsed (finish-Over t),
        )

    pub frames-Ends :
        (n : ℕ) (a : Source)
        → a.playing ≡ true
        → host.lt_real (later (suc n) a.elapsed) a.duration ≡ false
        → Ends (suc n) a
    unfolding frames later
    frames-Ends zero a p late = tick-Ends 0 a p late
    frames-Ends (suc n) a p late =
        elim (Bool-cases (host.lt_real (host.add_real a.elapsed dt) a.duration)) [
          | inr over ↦ tick-Ends (suc n) a p over
          | inl early ↦
              let t = record a { elapsed = host.add_real a.elapsed dt } in
              let (k, b, le, e, o) = frames-Ends n t p late in
              (
                suc k,
                b,
                omega (arith, le),
                ap (frames k) (tick_playing a true p early) ∙ e,
                retimed t.elapsed o,
              )
        ]
