-- ===== src/Handoff.antt =====
-- src/ff-handoff.c: frames handed from the audio thread to the renderer through two slots and a counter.
-- A frame is the list of its words, which a thread writes and copies one at a time, the other running
-- in between; every access is taken to happen in the order of the code. `unsigned` has 32 bits.
pub mod Threads
pub mod Slots
pub mod Untorn
use obs_foxfire.Prelude.{
  ltb, ◌==◌, if◌then◌else◌, get_or, set, replicate, ℕ, ◌+◌, ◌-◌, ◌/◌, ◌%◌, ◌^◌, Bool, List,
}

-- `struct ff_handoff`
pub record Handoff : Type 0 where
  pub slot0 : List ℕ
  pub slot1 : List ℕ
  pub seq : ℕ

-- `h->slot[i]` for `i` 0 or 1, and a write to one of its words.
unfoldable pub slot : Handoff → ℕ → List ℕ
slot h i = if i == 0 then h.slot0 else h.slot1

unfoldable pub write_slot : Handoff → ℕ → ℕ → ℕ → Handoff
write_slot h i k v =
    if i == 0 then record h { slot0 = set h.slot0 k v } else record h { slot1 = set h.slot1 k v }

-- `ff_handoff_init`, for frames of `size` words.
unfoldable pub init : ℕ → Handoff
init size = record { slot0 = replicate size 0; slot1 = replicate size 0; seq = 0 }

-- The sections of `ff_handoff_publish` for the counter `s` that it loads: the odd count, a word, and the even count.
unfoldable pub publish_begin : Handoff → ℕ → Handoff
publish_begin h s = record h { seq = (s + 1) % 2 ^ 32 }

unfoldable pub publish_slot : ℕ → ℕ
publish_slot s = (s + 2) % 2 ^ 32 / 2 % 2

unfoldable pub publish_word : Handoff → ℕ → ℕ → ℕ → Handoff
unfolding publish_slot write_slot
publish_word h s k v = write_slot h (publish_slot s) k v

unfoldable pub publish_end : Handoff → ℕ → Handoff
publish_end h s = record h { seq = (s + 2) % 2 ^ 32 }

-- What a turn of `ff_handoff_read` does with the counter it loads.
pub data Glance : Type 0 where
  nothing_yet busy : Glance
  copy : ℕ → Glance

unfoldable pub read_begin : Handoff → Glance
read_begin h = if h.seq == 0 then nothing_yet else if h.seq % 2 == 1 then busy else copy h.seq

unfoldable pub read_slot : ℕ → ℕ
read_slot s = s / 2 % 2

-- The word that is copied, and the test at the end.
unfoldable pub read_word : Handoff → ℕ → ℕ → ℕ
unfolding read_slot slot
read_word h s k = get_or (slot h (read_slot s)) k 0

unfoldable pub read_ok : Handoff → ℕ → Bool
read_ok h s = ltb ((h.seq + 2 ^ 32 - s) % 2 ^ 32) 3
