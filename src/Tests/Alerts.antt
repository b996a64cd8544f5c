-- ===== src/Tests/Alerts.antt =====
-- The alert queue, the alert kinds and the cleaning of a text that is drawn.
use obs_foxfire.Queue.{Event, init, raid, zero_event}
use obs_foxfire.Queue.Invariant.{IsValid, init-IsValid}
use obs_foxfire.Queue.Fifo.{Call, put, get, clear_all, ring_run, fifo_run, view, run_refines}
use obs_foxfire.Sanitise.{sanitise}
use obs_foxfire.Sanitise.Characters.{IsText}
use obs_foxfire.Sanitise.Output.{sanitise_clean}
use obs_foxfire.Prelude.{length, Bytes, ◌≤◌, ◌≡◌, refl, some, List, [], ◌∷◌}
use obs_foxfire.Prelude.Int.{pos}

abbrev raided : Event
raided = record zero_event { kind = raid; amount = pos 12 }

abbrev calls : List Call
calls = put raided ∷ get ∷ get ∷ put raided ∷ clear_all ∷ []

run_refines_example :
    (let (rs, last) = ring_run init calls in (rs, view last) ≡ fifo_run (view init) calls)
    × IsValid (ring_run init calls).1
run_refines_example = run_refines calls init init-IsValid

-- a name with a newline, a right-to-left override, a stray byte and a cut sequence
abbrev hostile : Bytes
hostile = b'a' ∷ b'\n' ∷ 0xe2 ∷ 0x80 ∷ 0xae ∷ b'b' ∷ 0x80 ∷ 0xc3 ∷ 0xa9 ∷ 0xe2 ∷ 0x80 ∷ []

sanitise-hostile : sanitise (some hostile) 64 ≡ (some (b'a' ∷ b'b' ∷ 0xc3 ∷ 0xa9 ∷ []), 5)
unfolding sanitise
sanitise-hostile = refl

-- a character is never cut in two
sanitise_full : sanitise (some hostile) 4 ≡ (some (b'a' ∷ b'b' ∷ []), 3)
unfolding sanitise
sanitise_full = refl

-- a control character of the second set, U+0085, and an overlong line feed are kept
sanitise_c1 :
    sanitise (some (0xc2 ∷ 0x85 ∷ 0xc0 ∷ 0x8a ∷ [])) 64 ≡ (some (0xc2 ∷ 0x85 ∷ 0xc0 ∷ 0x8a ∷ []), 0)
unfolding sanitise
sanitise_c1 = refl

sanitise_clean_example :
    (t : Bytes) × ((sanitise (some hostile) 4).0 ≡ some t)
    × IsText t
    × (length t ≤ 3)
    × (sanitise (some t) 4 ≡ (some t, 0))
sanitise_clean_example = sanitise_clean hostile 3
