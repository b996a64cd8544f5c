-- ===== src/Queue/Fifo/Ends.antt =====
-- What a push and a pop of src/ff-alert-queue.c do to the alerts that wait.
use obs_foxfire.Queue.{zero_event, Event, Queue, push, pop}
use obs_foxfire.Queue.Invariant.{IsValid}
use obs_foxfire.Queue.Fifo.{
  Fifo, view, fifo_step, ring_step, put, get, got, nothing_waiting, accepted, refused_newest,
  push_refines, pop_refines,
}
use obs_foxfire.Prelude.{
  ltb, ◌==◌, if◌then◌else◌, ==_iff, Bool-cases, length, get_or, ℕ, ◌≡◌, refl, sym, ap, ◌∙◌, subst,
  inl, inr, Bool, true, false, Option, none, some, List, [], ◌∷◌, ◌++◌, append-nil, arith,
}

first_got :
    (ws : List Event) (n : ℕ) (e : Event) (s : Fifo)
    → (got e, s) ≡ fifo_step (record { waiting = ws; refused = n }) get
    → ws ≡ e ∷ s.waiting
unfolding fifo_step
first_got [] n e s h = cc
first_got (w ∷ ws) n e s h = cc

pub data Popped (q : Queue) : Bool × Option Event × Queue → Type 0 where
  popped_none : (view q).waiting ≡ [] → Popped q (false, none, q)
  popped_some :
      {q' : Queue} (e : Event)
      → (view q).waiting ≡ e ∷ (view q').waiting
      → Popped q (true, some e, q')

pop_empty : (q : Queue) → q.count ≡ 0 → pop q ≡ (false, none, q)
unfolding pop
pop_empty q e = rw ((==_iff q.count 0).1 e) refl

pop_more :
    (q : Queue)
    → (q.count == 0) ≡ false
    → pop q ≡ (true, some (get_or q.items q.head zero_event), (pop q).2)
unfolding pop
pop_more q e = rw (e, pop) refl

waiting_none : (q : Queue) → q.count ≡ 0 → (view q).waiting ≡ []
waiting_none q e = ap (λ n. (view (record q { count = n })).waiting) e

of_reply :
    (q q' : Queue) (r : Bool × Option Event × Queue) (e : Event)
    → r ≡ (true, some e, q')
    → (elim r.1 [ none ↦ nothing_waiting | some x ↦ got x ], view r.2) ≡ fifo_step (view q) get
    → (view q).waiting ≡ e ∷ (view q').waiting
of_reply q q' r e same h = first_got (view q).waiting q.dropped e (view q') (
    sym (
      ap
        (λ (t : Bool × Option Event × Queue).
          (elim t.1 [ none ↦ nothing_waiting | some x ↦ got x ], view t.2))
        same)
    ∙ h)

pub pop-Popped : (q : Queue) → IsValid q → Popped q (pop q)
unfolding ring_step
pop-Popped q v = elim (Bool-cases (q.count == 0)) [
  | inl z ↦ let e = (==_iff q.count 0).0 z in rw (pop_empty q e) (popped_none (waiting_none q e))
  | inr p ↦
      subst (Popped q) (sym (pop_more q p))
        (popped_some _ (of_reply q (pop q).2 (pop q) _ (pop_more q p) (pop_refines q v)))
]

put_last :
    (s t : Fifo) (e : Event) (r : Bool)
    → (if r then accepted else refused_newest, t) ≡ fifo_step s (put e)
    → t.waiting ≡ s.waiting ++ (if ltb (length s.waiting) 64 then e ∷ [] else [])
unfolding fifo_step
put_last s t e r h = elim (Bool-cases (ltb (length s.waiting) 64)) [
  | inl room ↦ rw room (ground arith)
  | inr full ↦ rw (full, append-nil s.waiting) (ground arith)
]

pub push_waiting :
    (q : Queue) (e : Event)
    → IsValid q
    → (view (push q e).1).waiting
      ≡ (view q).waiting ++ (if ltb (length (view q).waiting) 64 then e ∷ [] else [])
unfolding ring_step
push_waiting q e v = put_last (view q) (view (push q e).1) e (push q e).0 (push_refines q e v)
