-- ===== src/Handoff/Untorn.antt =====
-- A read that succeeds is a whole frame.
use obs_foxfire.Handoff.{
  Handoff, slot, write_slot, init, publish_begin, publish_word, publish_end, copy, read_begin,
  read_word, read_ok,
}
use obs_foxfire.Handoff.Slots.{
  Agree, same_of_Agree, Agree-append, Agree-set, slot-write_slot, slot_other, parity_ne,
  publish_slot_lem, read_slot_lem, seq-write_slot, wide_write, copy_lem,
}
use obs_foxfire.Handoff.Threads.{
  Writer, resting, writing, Reader, waiting, copying, State, Step, begins, writes, ends, looks,
  copies, turns, start, Runs, starts, steps,
}
use obs_foxfire.Prelude.{
  leb, ◌==◌, ltb→lt, Bool-cases, length, get_or, replicate, length-append, length-replicate, ℕ, ◌+◌,
  ◌-◌, ◌*◌, ◌/◌, ◌%◌, ◌^◌, ◌≤◌, ◌<◌, ◌≡◌, refl, sym, ap, ◌∙◌, subst, inl, inr, true, List, [], ◌∷◌,
  ◌++◌, arith, if_both,
}

module _ (size : ℕ) (frames : ℕ → List ℕ) (whole : (n : ℕ) → length (frames n) ≡ size) where
  abbrev IsWriter : Handoff → Writer → ℕ → Type 0
  IsWriter h resting t = t % 2 ≡ 0
  IsWriter h (writing s k) t =
      (t % 2 ≡ 1)
      × ((s ≡ (t - 1) % 2 ^ 32)
          × ((k ≤ size) × Agree k (slot h ((t / 2 + 1) % 2)) (frames (t / 2 + 1))))

  abbrev IsReader : Reader → ℕ → Type 0
  IsReader waiting t = Unit
  IsReader (copying since s out) t =
      (since ≤ t)
      × ((since % 2 ≡ 0)
          × ((1 ≤ since)
              × ((s ≡ since % 2 ^ 32)
                  × ((length out ≤ size)
                      × (t ≤ since + 2 → Agree (length out) out (frames (since / 2)))))))

  -- The frames that are still whole: the last one, and the one before until the next call is over.
  abbrev Recent : Handoff → ℕ → Type 0
  Recent h t = (n : ℕ) → 1 ≤ n → n * 2 ≤ t → t ≤ n * 2 + 2 → Agree size (slot h (n % 2)) (frames n)

  record Inv (st : State) : Type 0 where
    counted : st.handoff.seq ≡ st.moves % 2 ^ 32
    wide : (i : ℕ) → length (slot st.handoff i) ≡ size
    recent : Recent st.handoff st.moves
    writer_ok : IsWriter st.handoff st.writer st.moves
    reader_ok : IsReader st.reader st.moves

  -- A move of the counter leaves the reader's claim.
  reader_moves : (r : Reader) (t : ℕ) → IsReader r t → IsReader r (t + 1)
  reader_moves waiting t ok = tt
  reader_moves (copying since s out) t (le, (even, (one, (e, (few, agree))))) =
      (omega (arith, le), (even, (one, (e, (few, λ soon. agree (omega (arith, soon)))))))

  Inv-begins :
      (h : Handoff) (r : Reader) (t : ℕ)
      → Inv (record { handoff = h; writer = resting; reader = r; moves = t })
      → Inv (record {
        handoff = publish_begin h h.seq;
        writer = writing h.seq 0;
        reader = r;
        moves = t + 1;
      })
  unfolding publish_begin slot
  Inv-begins h r t inv = record {
    counted = omega (arith, inv.counted);
    wide = inv.wide;
    recent = λ n one low high.
        inv.recent n one (omega (arith, low, inv.writer_ok)) (omega (arith, high));
    writer_ok = (
      omega (arith, inv.writer_ok),
      (omega (arith, inv.counted), (omega arith, λ j small. absurd (omega (arith, small)))),
    );
    reader_ok = reader_moves r t inv.reader_ok;
  }

  Inv-writes :
      (h : Handoff) (r : Reader) (t s k : ℕ)
      → k < size
      → Inv (record { handoff = h; writer = writing s k; reader = r; moves = t })
      → Inv (record {
        handoff = publish_word h s k (get_or (frames (t / 2 + 1)) k 0);
        writer = writing s (k + 1);
        reader = r;
        moves = t;
      })
  unfolding publish_word
  Inv-writes h r t s k small inv =
      let (odd, (e, (few, agree))) = inv.writer_ok in
      let v = get_or (frames (t / 2 + 1)) k 0 in
      let i = (t / 2 + 1) % 2 in
      let moved : publish_word h s k v ≡ write_slot h i k v =
        rw (publish_word, publish_slot_lem t s odd e) refl in
      let st : Handoff → State =
        λ g. record { handoff = g; writer = writing s (k + 1); reader = r; moves = t } in
      let inv' : Inv (st (write_slot h i k v)) = record {
        counted = seq-write_slot h i k v ∙ inv.counted;
        wide = λ j. wide_write h i j k v size inv.wide;
        recent = λ n one low high.
            subst (λ xs. Agree size xs (frames n))
              (sym (
                slot_other h i (n % 2) k v
                  (parity_ne (t / 2 + 1) n (omega (arith, low, high, odd)))))
              (inv.recent n one low high);
        writer_ok = (
          odd,
          (
            e,
            (
              omega (arith, small),
              subst (λ xs. Agree (k + 1) xs (frames (t / 2 + 1))) (sym (slot-write_slot h i k v))
                  (Agree-set (slot h i) (frames (t / 2 + 1)) k (omega (arith, small, inv.wide i))
                    agree),
            ),
          ),
        );
        reader_ok = inv.reader_ok;
      } in
      subst (λ g. Inv (st g)) (sym moved) inv'

  Inv-ends :
      (h : Handoff) (r : Reader) (t s : ℕ)
      → Inv (record { handoff = h; writer = writing s size; reader = r; moves = t })
      → Inv (record { handoff = publish_end h s; writer = resting; reader = r; moves = t + 1 })
  unfolding publish_end slot
  Inv-ends h r t s inv =
      let (odd, (e, (few, agree))) = inv.writer_ok in
      record {
        counted = omega (arith, odd, e);
        wide = inv.wide;
        recent = λ n one low high. elim (Bool-cases (leb (n * 2) t)) [
          | inl old ↦ inv.recent n one (ground (arith, old)) (omega (arith, high))
          | inr new ↦
              let same : t / 2 + 1 ≡ n = ground (arith, new, low, odd) in
              subst (λ m. Agree size (slot h (m % 2)) (frames m)) same agree
        ];
        writer_ok = omega (arith, odd);
        reader_ok = reader_moves r t inv.reader_ok;
      }

  Inv-looks :
      (h : Handoff) (w : Writer) (t s : ℕ)
      → read_begin h ≡ copy s
      → Inv (record { handoff = h; writer = w; reader = waiting; moves = t })
      → Inv (record { handoff = h; writer = w; reader = copying t s []; moves = t })
  Inv-looks h w t s glance inv =
      let (e, (some_time, even)) = copy_lem h s glance in
      record {
        counted = inv.counted;
        wide = inv.wide;
        recent = inv.recent;
        writer_ok = inv.writer_ok;
        reader_ok = (
          omega arith,
          (
            omega (arith, e, even, inv.counted),
            (
              omega (arith, e, some_time, inv.counted),
              (
                omega (arith, e, inv.counted),
                (omega arith, λ soon j small. absurd (omega (arith, small))),
              ),
            ),
          ),
        );
      }

  Inv-copies :
      (h : Handoff) (w : Writer) (t since s : ℕ) (out : List ℕ)
      → length out < size
      → Inv (record { handoff = h; writer = w; reader = copying since s out; moves = t })
      → Inv (record {
        handoff = h;
        writer = w;
        reader = copying since s (out ++ (read_word h s (length out) ∷ []));
        moves = t;
      })
  unfolding read_word
  Inv-copies h w t since s out small inv =
      let (le, (even, (one, (e, (few, agree))))) = inv.reader_ok in
      let v = read_word h s (length out) in
      let longer : length (out ++ (v ∷ [])) ≡ length out + 1 = length-append out (v ∷ []) in
      record {
        counted = inv.counted;
        wide = inv.wide;
        recent = inv.recent;
        writer_ok = inv.writer_ok;
        reader_ok = (
          le,
          (
            even,
            (
              one,
              (
                e,
                (
                  omega (arith, longer, small),
                  λ soon.
                      subst (λ k. Agree k (out ++ (v ∷ [])) (frames (since / 2))) (sym longer)
                        (Agree-append out (frames (since / 2)) v (agree soon) (
                          ap (λ i. get_or (slot h i) (length out) 0) (read_slot_lem since s even e)
                          ∙ inv.recent (since / 2) (omega (arith, one, even))
                              (omega (arith, le, even)) (omega (arith, soon, even)) (length out)
                              small)),
                ),
              ),
            ),
          ),
        );
      }

  Inv-step : {st st' : State} → Inv st → Step size frames st st' → Inv st'
  Inv-step inv begins = Inv-begins _ _ _ inv
  Inv-step inv (writes small) = Inv-writes _ _ _ _ _ small inv
  Inv-step inv ends = Inv-ends _ _ _ _ inv
  Inv-step inv (looks e) = Inv-looks _ _ _ _ e inv
  Inv-step inv (copies small) = Inv-copies _ _ _ _ _ _ small inv
  Inv-step inv turns = record {
    counted = inv.counted;
    wide = inv.wide;
    recent = inv.recent;
    writer_ok = inv.writer_ok;
    reader_ok = tt;
  }

  Inv-start : Inv (start size frames)
  unfolding init slot
  Inv-start = record {
    counted = refl;
    wide = λ i.
        if_both {A = List ℕ} (λ xs. length xs ≡ size) (i == 0) (replicate size 0) (replicate size 0)
          (length-replicate {A = ℕ} size 0) (length-replicate {A = ℕ} size 0);
    recent = λ n one low high. absurd (omega (arith, one, low));
    writer_ok = refl;
    reader_ok = tt;
  }

  Inv-run : {st : State} → Runs size frames st → Inv st
  Inv-run starts = Inv-start
  Inv-run (steps run step) = Inv-step (Inv-run run) step

  -- However the two threads' accesses are ordered, a read that has copied a frame's words and is accepted holds the
  -- frame of one whole call, the last that was published when the read began, if the counter has not gone round
  -- since then.
  pub read_untorn :
      {h : Handoff} {w : Writer} {t since s : ℕ} {out : List ℕ}
      → Runs size frames
          (record { handoff = h; writer = w; reader = copying since s out; moves = t })
      → length out ≡ size
      → read_ok h s ≡ true
      → t < since + 2 ^ 32
      → (out ≡ frames (since / 2)) × ((1 ≤ since / 2) × (since / 2 * 2 ≡ since))
  unfolding read_ok
  read_untorn {h = h} {w = w} {t = t} {since = since} {s = s} {out = out} run full ok near =
      let inv = Inv-run run in
      let (le, (even, (one, (e, (few, agree))))) = inv.reader_ok in
      let soon : t ≤ since + 2 = omega (arith, ltb→lt _ 3 ok, inv.counted, e, le, near) in
      (
        same_of_Agree out (frames (since / 2)) (full ∙ sym (whole (since / 2))) (agree soon),
        (omega (arith, one, even), omega (arith, even)),
      )
