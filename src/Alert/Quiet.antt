-- ===== src/Alert/Quiet.antt =====
-- The parts of the operations of src/ff-alert-source.c that start no alert and let no sound be heard.
use obs_foxfire.Queue.{Event, Kind}
use obs_foxfire.Pack.Load.{Preset}
use obs_foxfire.Pack.Load.Manifest.{packs_find}
use obs_foxfire.Alert.{
  no_text, no_media, queue_full, queued, wrong_kind, create_text, create_sound, add_child,
  remove_child, release, update_sound, load_art, render_art, draw_art, log, asks, text_kinds,
  first_registered, found_message, text_kind, create_text_child, ensure_text_child,
  drop_sound_child, create_sound_child, ensure_sound_child, Host, Source, Call,
}
use obs_foxfire.Alert.Play.{own_or, tell_removed, draw_body, choose_art, choose_sound, tell_queued}
use obs_foxfire.Alert.Draw.{
  preset_of, alert_preset, warned, reload_art, progress, draw_pack, draw_name, render,
}
use obs_foxfire.Alert.Steps.{Same, same, Same-trans, asks-Same, body_of_call}
use obs_foxfire.Alert.Audible.{after, loud, Calm, calm, Calm-trans, asks-Calm, unheard-Calm}
use obs_foxfire.Prelude.{
  ltb, ◌==◌, if◌then◌else◌, Bytes, codes, is_empty, bytes_eq, clip, ℕ, ◌≡◌, refl, Bool, true, false,
  not, ◌||◌, Option, none, some, [], arith, if_both, given_both, given_with,
}

pub record Quiet (a b : Source) : Type 0 where
  pub keeps : Same a b
  pub calms : Calm a b

pub quiet : (a : Source) → Quiet a a
quiet a = record { keeps = same a; calms = calm a }

pub Quiet-trans : {a b c : Source} → Quiet a b → Quiet b c → Quiet a c
Quiet-trans p q = record { keeps = Same-trans p.keeps q.keeps; calms = Calm-trans p.calms q.calms }

-- A call that is neither a start nor about the sound.
pub asks-Quiet :
    (c : Call) (a : Source)
    → body_of_call c ≡ []
    → ((s : ℕ) (b : Bool) → after s c b ≡ b)
    → Quiet a (asks c a)
asks-Quiet c a none_started unheard = record {
  keeps = asks-Same c a none_started;
  calms = asks-Calm c a unheard;
}

-- Fields that are written alone.
fields : {a b : Source} → Same a b → b.calls ≡ a.calls → b.sound ≡ a.sound → Quiet a b
fields s c e = record { keeps = s; calms = unheard-Calm c e s.same_playing }

found-Quiet : (found : Option Bytes) (a : Source) → Quiet a (asks (log (found_message found)) a)
found-Quiet none a = asks-Quiet (log (found_message none)) a refl (λ s b. refl)
found-Quiet (some k) a = asks-Quiet (log (found_message (some k))) a refl (λ s b. refl)

warned-Quiet : (p : Option (Preset ℕ)) (a : Source) → Quiet a (warned p a)
unfolding warned
warned-Quiet none a = quiet a
warned-Quiet (some p) a =
    if_both (Quiet a) (bytes_eq p.kind (codes "alert")) _ _ (quiet a)
      (asks-Quiet (log (wrong_kind a.want_preset a.pack_id p.kind)) a refl (λ s b. refl))

reload_art-Quiet : (a : Source) → Quiet a (reload_art a)
unfolding reload_art
reload_art-Quiet a =
    let preset = preset_of (packs_find a.packs a.pack_id) a.want_preset in
    let b = warned preset a in
    let call = load_art (packs_find a.packs a.pack_id) (alert_preset preset) in
    Quiet-trans (Quiet-trans (warned-Quiet preset a) (asks-Quiet call b refl (λ s r. refl)))
      (fields (ground arith) refl refl)

pub tell_queued-Quiet : (ok : Bool) (e : Event) (b : Source) → Quiet b (tell_queued ok e b)
unfolding tell_queued
tell_queued-Quiet false e b =
    asks-Quiet (log (queue_full e.name b.queue.dropped)) b refl (λ s r. refl)
tell_queued-Quiet true e b =
    if_both (Quiet b) (ltb 1 b.queue.count) _ _
      (asks-Quiet (log (queued e.name b.queue.count)) b refl (λ s r. refl)) (quiet b)

module _ (host : Host) where
  pub text_kind-Quiet : (a : Source) → Quiet a (text_kind host a).1
  unfolding text_kind
  text_kind-Quiet a =
      let found = first_registered host.output_flags text_kinds in
      given_both (λ (r : Option Bytes × Source). Quiet a r.1) a.looked _ _
        (Quiet-trans (fields (ground arith) refl refl)
          (found-Quiet found (record a { looked = some found })))
        (λ known. quiet a)

  create_text_child-Quiet : (k : Bytes) (a : Source) → Quiet a (create_text_child host k a)
  unfolding create_text_child
  create_text_child-Quiet k a =
      let asked = asks (create_text k) a in
      let p = asks-Quiet (create_text k) a refl (λ s b. refl) in
      given_both (Quiet a) (host.create_source asked.calls) _ _
        (Quiet-trans p (asks-Quiet (log (no_text k)) asked refl (λ s b. refl)))
        (λ t. Quiet-trans p (
          Quiet-trans (fields (ground arith) refl refl)
            (asks-Quiet (add_child t) (record asked { text = some t }) refl (λ s b. refl))))

  ensure_text_child-Quiet : (a : Source) → Quiet a (ensure_text_child host a)
  unfolding ensure_text_child
  ensure_text_child-Quiet a =
      let (kind, a1) = text_kind host a in
      given_both (Quiet a) a.text _ _
        (given_both (Quiet a) kind _ _ (text_kind-Quiet a)
          (λ k. Quiet-trans (text_kind-Quiet a) (create_text_child-Quiet k a1)))
        (λ t. quiet a)

  -- The child is let go, and no other can be playing.
  drop_sound_child-Quiet : (a : Source) → Quiet a (drop_sound_child host a)
  unfolding drop_sound_child asks loud
  drop_sound_child-Quiet a =
      given_with (Quiet a) a.sound _ _ (λ e. quiet a)
        (λ s e. record {
          keeps =
              Same-trans (asks-Same (remove_child s) a refl)
                (Same-trans (asks-Same (release s) (asks (remove_child s) a) refl) (ground arith));
          calms = record {
            calm_loud = λ t h. ground arith;
            calm_owned = λ o t h. ground (arith, o t);
            calm_playing = refl;
          };
        })

  create_sound_child-Quiet : (a : Source) → a.sound ≡ none → Quiet a (create_sound_child host a)
  unfolding create_sound_child asks
  create_sound_child-Quiet a e =
      let asked = asks (create_sound a.sound_path) a in
      let p = asks-Quiet (create_sound a.sound_path) a refl (λ s b. refl) in
      given_both (Quiet a) (host.create_source asked.calls) _ _
        (Quiet-trans p (asks-Quiet (log (no_media a.sound_path)) asked refl (λ s b. refl)))
        (λ s. Quiet-trans p (
          Quiet-trans (created asked s e)
            (asks-Quiet (add_child s) (record asked { sound = some s }) refl (λ t b. refl))))
    where
      created : (a : Source) (s : ℕ) → a.sound ≡ none → Quiet a (record a { sound = some s })
      created a s e = record {
        keeps = ground arith;
        calms = record {
          calm_loud = λ t h. h;
          calm_owned = λ o t h. absurd (ground (arith, o t h));
          calm_playing = refl;
        };
      }

  pub ensure_sound_child-Quiet : (a : Source) → Quiet a (ensure_sound_child host a)
  unfolding ensure_sound_child
  ensure_sound_child-Quiet a =
      if_both (Quiet a) (is_empty a.sound_path) _ _ (drop_sound_child-Quiet a) (
        given_with (Quiet a) a.sound _ _ (create_sound_child-Quiet a)
          (λ s e. asks-Quiet (update_sound s a.sound_path) a refl (λ t b. refl)))

  pub tell_removed-Quiet : (e : Event) (a : Source) → Quiet a (tell_removed host e a)
  unfolding tell_removed
  tell_removed-Quiet e a = if_both (Quiet a) _ _ _ (quiet a) (asks-Quiet _ a refl (λ s b. refl))

  pub choose_art-Quiet : (k : Kind) (a : Source) → Quiet a (choose_art host k a)
  unfolding choose_art
  choose_art-Quiet k a =
      let preset = own_or (a.kinds k).preset a.preset_fallback in
      if_both (Quiet a) (bytes_eq preset a.want_preset) a
        (record a { want_preset = clip 64 preset; art_dirty = true }) (quiet a)
        (fields (ground arith) refl refl)

  pub choose_sound-Quiet : (k : Kind) (a : Source) → Quiet a (choose_sound host k a)
  unfolding choose_sound
  choose_sound-Quiet k a =
      let snd = own_or (a.kinds k).sound a.sound_fallback in
      if_both (Quiet a) (bytes_eq snd a.sound_path) _ _ (quiet a) (
        Quiet-trans (fields (ground arith) refl refl)
          (ensure_sound_child-Quiet (record a { sound_path = clip 512 snd })))

  -- The text child is updated with the new text, which becomes what is shown.
  pub draw_body-Quiet :
      (body : Bytes) (a : Source)
      → Quiet (record a { showing = clip 512 body }) (draw_body host body a)
  unfolding draw_body
  draw_body-Quiet body a =
      let t = record a { showing = clip 512 body } in
      given_both (Quiet t) (ensure_text_child host t).text _ _ (ensure_text_child-Quiet t) (λ c.
        Quiet-trans (ensure_text_child-Quiet t)
          (asks-Quiet _ (ensure_text_child host t) refl (λ s b. refl)))

  draw_pack-Quiet : (a : Source) → Quiet a (draw_pack host a)
  unfolding draw_pack
  draw_pack-Quiet a =
      let call = render_art (progress host a) a.width a.height in
      let s = asks-Quiet call a refl (λ s b. refl) in
      if_both (Quiet a) (not a.has_renderer) _ _ (quiet a) (
        if_both (Quiet a) (host.art_rendered (asks call a).calls) _ _
          (Quiet-trans s (asks-Quiet (draw_art a.width a.height) (asks call a) refl (λ s b. refl)))
          s)

  draw_name-Quiet : (a : Source) → Quiet a (draw_name host a)
  unfolding draw_name
  draw_name-Quiet a = given_both (Quiet a) a.text _ _ (quiet a) (λ t.
      if_both (Quiet a) (host.width_of t == 0 || host.height_of t == 0) _ _ (quiet a)
        (asks-Quiet _ a refl (λ s b. refl)))

  pub render-Quiet : (a : Source) → Quiet a (render host a)
  unfolding render
  render-Quiet a =
      let b = if a.art_dirty then reload_art a else a in
      let s : Quiet a b = if_both (Quiet a) a.art_dirty _ _ (reload_art-Quiet a) (quiet a) in
      if_both (Quiet a) b.playing _ _
        (Quiet-trans s (Quiet-trans (draw_pack-Quiet b) (draw_name-Quiet (draw_pack host b)))) s
