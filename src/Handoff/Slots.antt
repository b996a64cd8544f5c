-- ===== src/Handoff/Slots.antt =====
-- The words of a frame, the two slots, and the counter.
use obs_foxfire.Handoff.{Handoff, slot, write_slot, publish_slot, copy, read_begin, read_slot}
use obs_foxfire.Prelude.{
  ltb, ◌==◌, ltb→lt, Bool-cases, length, get_or, set, length-set, get_or-append, get_or-set_self,
  get_or-set_ne, ℕ, suc, ◌+◌, ◌-◌, ◌/◌, ◌%◌, ◌^◌, ◌≤◌, ◌<◌, ◌≡◌, refl, sym, ◌∙◌, subst, ◌≢◌, inl,
  inr, List, [], ◌∷◌, ◌++◌, arith, if_both,
}

-- The first `k` words are the same.
abbrev pub Agree : ℕ → List ℕ → List ℕ → Type 0
Agree k xs ys = (j : ℕ) → j < k → get_or xs j 0 ≡ get_or ys j 0

pub same_of_Agree : (xs ys : List ℕ) → length xs ≡ length ys → Agree (length xs) xs ys → xs ≡ ys
same_of_Agree [] [] l a = refl
same_of_Agree [] (y ∷ ys) l a = absurd (omega (arith, l))
same_of_Agree (x ∷ xs) [] l a = absurd (omega (arith, l))
same_of_Agree (x ∷ xs) (y ∷ ys) l a =
    let e : x ≡ y = a 0 (omega arith) in
    let e' : xs ≡ ys =
      same_of_Agree xs ys (omega (arith, l)) (λ j h. a (suc j) (omega (arith, h))) in
    cc

get_or-append_end : (xs : List ℕ) (v d : ℕ) → get_or (xs ++ (v ∷ [])) (length xs) d ≡ v
get_or-append_end [] v d = refl
get_or-append_end (x ∷ xs) v d = get_or-append_end xs v d

-- One more word that is the same.
pub Agree-append :
    (xs ys : List ℕ) (v : ℕ)
    → Agree (length xs) xs ys
    → v ≡ get_or ys (length xs) 0
    → Agree (length xs + 1) (xs ++ (v ∷ [])) ys
Agree-append xs ys v a e j h = elim (Bool-cases (ltb j (length xs))) [
  | inl small ↦
      get_or-append xs (v ∷ []) j 0 (ltb→lt j (length xs) small) ∙ a j (ltb→lt j (length xs) small)
  | inr last ↦
      let at_end : length xs ≡ j = ground (arith, h, last) in
      subst (λ i. get_or (xs ++ (v ∷ [])) i 0 ≡ get_or ys i 0) at_end (get_or-append_end xs v 0 ∙ e)
]

pub Agree-set :
    (xs ys : List ℕ) (k : ℕ)
    → k < length xs
    → Agree k xs ys
    → Agree (k + 1) (set xs k (get_or ys k 0)) ys
Agree-set xs ys k small a j h = elim (Bool-cases (j == k)) [
  | inl e ↦
      let same : k ≡ j = ground (arith, e) in
      subst (λ i. get_or (set xs k (get_or ys k 0)) i 0 ≡ get_or ys i 0) same
        (get_or-set_self xs k (get_or ys k 0) 0 small)
  | inr ne ↦
      get_or-set_ne xs {i = k} {j = j} (get_or ys k 0) 0 (λ e. ground (arith, e, ne))
      ∙ a j (ground (arith, h, ne))
]

-- The slots: a write to one is seen there and not in the other.
pub slot-write_slot : (h : Handoff) (i k v : ℕ) → slot (write_slot h i k v) i ≡ set (slot h i) k v
unfolding slot write_slot
slot-write_slot h i k v = elim (Bool-cases (i == 0)) [
  | inl e ↦ rw (slot, write_slot, e) refl
  | inr e ↦ rw (slot, write_slot, e) refl
]

pub slot_other :
    (h : Handoff) (i j k v : ℕ) → (i == 0) ≢ (j == 0) → slot (write_slot h i k v) j ≡ slot h j
unfolding slot write_slot
slot_other h i j k v ne = elim (Bool-cases (i == 0)) [
  | inl e ↦ elim (Bool-cases (j == 0)) [
    | inl e' ↦ absurd (ne (e ∙ sym e'))
    | inr e' ↦ rw (slot, write_slot, e, e') refl
  ]
  | inr e ↦ elim (Bool-cases (j == 0)) [
    | inl e' ↦ rw (slot, write_slot, e, e') refl
    | inr e' ↦ absurd (ne (e ∙ sym e'))
  ]
]

pub parity_ne : (i j : ℕ) → i % 2 ≢ j % 2 → (i % 2 == 0) ≢ (j % 2 == 0)
parity_ne i j ne e = ne (ground (arith, e))

pub publish_slot_lem :
    (t s : ℕ) → t % 2 ≡ 1 → s ≡ (t - 1) % 2 ^ 32 → publish_slot s ≡ (t / 2 + 1) % 2
unfolding publish_slot
publish_slot_lem t s odd e = omega (arith, odd, e)

pub read_slot_lem : (t s : ℕ) → t % 2 ≡ 0 → s ≡ t % 2 ^ 32 → read_slot s ≡ t / 2 % 2
unfolding read_slot
read_slot_lem t s even e = omega (arith, even, e)

pub seq-write_slot : (h : Handoff) (i k v : ℕ) → (write_slot h i k v).seq ≡ h.seq
unfolding write_slot
seq-write_slot h i k v = if_both {A = Handoff} (λ g. g.seq ≡ h.seq) (i == 0) _ _ refl refl

pub wide_write :
    (h : Handoff) (i j k v size : ℕ)
    → ((j : ℕ) → length (slot h j) ≡ size)
    → length (slot (write_slot h i k v) j) ≡ size
unfolding slot write_slot
wide_write h i j k v size wide = elim (Bool-cases (i == 0)) [
  | inl e ↦ elim (Bool-cases (j == 0)) [
    | inl e' ↦ rw (slot, write_slot, e, e') (length-set h.slot0 k v ∙ wide 0)
    | inr e' ↦ rw (slot, write_slot, e, e') (wide 1)
  ]
  | inr e ↦ elim (Bool-cases (j == 0)) [
    | inl e' ↦ rw (slot, write_slot, e, e') (wide 0)
    | inr e' ↦ rw (slot, write_slot, e, e') (length-set h.slot1 k v ∙ wide 1)
  ]
]

pub copy_lem :
    (h : Handoff) (s : ℕ) → read_begin h ≡ copy s → (h.seq ≡ s) × ((1 ≤ h.seq) × (h.seq % 2 ≡ 0))
unfolding read_begin
copy_lem h s e = elim (Bool-cases (h.seq == 0)) [
  | inl never ↦ ground (arith, (rw (read_begin, never) at e))
  | inr some_time ↦ elim (Bool-cases (h.seq % 2 == 1)) [
    | inl odd ↦ ground (arith, (rw (read_begin, some_time, odd) at e))
    | inr even ↦
        let e' : copy h.seq ≡ copy s = rw (read_begin, some_time, even) at e in
        (cc, (ground (arith, some_time), ground (arith, even)))
  ]
]
