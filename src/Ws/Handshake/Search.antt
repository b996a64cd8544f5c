-- ===== src/Ws/Handshake/Search.antt =====
-- What the searches of the handshake of src/ff-ws-conn.c find is a field, and an element of its value.
use obs_foxfire.Ws.Handshake.Fields.{
  IsCaseless, Blanks, Separators, Without, Starts, HasField, here, there, HasElement, element,
  behind, HasHeader, bytes_eq-IsCaseless, value_is-IsCaseless,
}
use obs_foxfire.Ws.Handshake.{
  lower, line, without_return, skip_blanks, value_is, is_named, header_in, header_value,
  skip_separators, token, trim_end, has_in, value_has,
}
use obs_foxfire.Prelude.{
  ltb, ◌==◌, ltb→lt, ==_iff, Bool-cases, length, get_or, take, drop, Bytes, is_empty, bytes_eq, ℕ,
  zero, suc, ◌+◌, ◌<◌, ◌≡◌, refl, sym, ap, ◌∙◌, subst, ◌≢◌, ◌⊎◌, inl, inr, Bool, true, false, ◌&&◌,
  ◌||◌, none, some, [], ◌∷◌, ◌++◌, map, append-nil, append_assoc, arith,
}

line_lem :
    (s : Bytes)
    → Without 10 (line s).0
      × ((s ≡ (line s).0 ++ (10 ∷ (line s).1)) ⊎ ((s ≡ (line s).0) × ((line s).1 ≡ [])))
line_lem [] = (tt, inr (refl, refl))
line_lem (c ∷ s) = elim (Bool-cases (c == 10)) [
  | inl e ↦ rw (e, line) (tt, inl (ap (λ x. x ∷ s) ((==_iff c 10).0 e)))
  | inr e ↦
      let (only, split) = line_lem s in
      rw (e, line)
        (
          (ground (arith, e), only),
          elim split [ inl h ↦ inl (ap (◌∷◌ c) h) | inr (h, k) ↦ inr (ap (◌∷◌ c) h, k) ],
        )
]

without_return_lem :
    (s : Bytes) → (r : Bytes) × (s ≡ without_return s ++ r) × ((r ≡ []) ⊎ (r ≡ 13 ∷ []))
without_return_lem [] = ([], refl, inl refl)
without_return_lem (c ∷ []) = elim (Bool-cases (c == 13)) [
  | inl e ↦ rw e (13 ∷ [], ap (λ x. x ∷ []) ((==_iff c 13).0 e), inr refl)
  | inr e ↦ rw e ([], refl, inl refl)
]
without_return_lem (c ∷ d ∷ s) = let (r, h, k) = without_return_lem (d ∷ s) in (r, ap (◌∷◌ c) h, k)

skip_blanks_lem : (s : Bytes) → (bl : Bytes) × (s ≡ bl ++ skip_blanks s) × Blanks bl
skip_blanks_lem [] = ([], refl, tt)
skip_blanks_lem (c ∷ s) = elim (Bool-cases (c == b' ' || c == b'\t')) [
  | inl e ↦
      let (bl, h, k) = skip_blanks_lem s in
      rw (e, skip_blanks) (c ∷ bl, ap (◌∷◌ c) h, (ground (arith, e), k))
  | inr e ↦ rw (e, skip_blanks) ([], refl, tt)
]

skip_separators_lem : (s : Bytes) → (sp : Bytes) × (s ≡ sp ++ skip_separators s) × Separators sp
skip_separators_lem [] = ([], refl, tt)
skip_separators_lem (c ∷ s) = elim (Bool-cases (c == b' ' || (c == b'\t' || c == b','))) [
  | inl e ↦
      let (sp, h, k) = skip_separators_lem s in
      rw (e, skip_separators) (c ∷ sp, ap (◌∷◌ c) h, (ground (arith, e), k))
  | inr e ↦ rw (e, skip_separators) ([], refl, tt)
]

token_lem :
    (s : Bytes) → (s ≡ (token s).0 ++ (token s).1) × Without 44 (token s).0 × Starts 44 (token s).1
token_lem [] = (refl, tt, inl refl)
token_lem (c ∷ s) = elim (Bool-cases (c == 44)) [
  | inl e ↦ rw (e, token) (refl, tt, inr (s, ap (λ x. x ∷ s) ((==_iff c 44).0 e)))
  | inr e ↦ let (h, k, z) = token_lem s in rw (e, token) (ap (◌∷◌ c) h, (ground (arith, e), k), z)
]

empty_nil : (s : Bytes) → is_empty s ≡ true → s ≡ []
empty_nil [] h = refl
empty_nil (c ∷ s) h = cc

blank_tail :
    (s bl : Bytes) (b : Bool)
    → s ≡ trim_end s ++ bl
    → (is_empty (trim_end s) && b) ≡ true
    → (bl ≡ s) × (b ≡ true)
blank_tail s bl b h e = elim (Bool-cases (is_empty (trim_end s))) [
  | inr full ↦ absurd (ground (arith, e, full))
  | inl empty ↦
      let none_left : trim_end s ≡ [] = empty_nil (trim_end s) empty in
      (sym (h ∙ ap (λ x. x ++ bl) none_left), ground (arith, e))
]

trim_end_lem : (s : Bytes) → (bl : Bytes) × (s ≡ trim_end s ++ bl) × Blanks bl
trim_end_lem [] = ([], refl, tt)
trim_end_lem (c ∷ s) =
    let (bl, h, k) = trim_end_lem s in
    elim (Bool-cases (is_empty (trim_end s) && (c == b' ' || c == b'\t'))) [
      | inl e ↦
          let (same, blank) = blank_tail s bl (c == b' ' || c == b'\t') h e in
          rw (e, trim_end) (c ∷ s, refl, (ground (arith, blank), subst Blanks same k))
      | inr e ↦ rw (e, trim_end) (bl, ap (◌∷◌ c) h, k)
    ]

Without-append : (x : ℕ) (s t : Bytes) → Without x (s ++ t) → Without x s × Without x t
Without-append x [] t h = (tt, h)
Without-append x (c ∷ s) t (ne, h) = let (a, b) = Without-append x s t h in ((ne, a), b)

split_at : (n : ℕ) (l : Bytes) → n < length l → l ≡ take n l ++ (get_or l n 0 ∷ drop (suc n) l)
split_at n [] lt = absurd (omega arith)
split_at zero (c ∷ l) lt = refl
split_at (suc n) (c ∷ l) lt = ap (◌∷◌ c) (split_at n l (omega arith))

no_value : (v : Bytes) → none ≢ some v
no_value v h = cc

has_in_nil : (f : ℕ) (want : Bytes) → has_in f [] want ≡ false
unfolding has_in
has_in_nil zero want = refl
has_in_nil (suc f) want = refl

header_in_nil : (f : ℕ) (name : Bytes) → header_in f name [] ≡ none
unfolding header_in
header_in_nil zero name = refl
header_in_nil (suc f) name = refl

module _ (want : Bytes) where
  element_at :
      (s : Bytes) → IsCaseless (trim_end (token (skip_separators s)).0) want → HasElement want s
  element_at s same =
      let (sp, h1, ks) = skip_separators_lem s in
      let (h2, kt, kz) = token_lem (skip_separators s) in
      let (t, rest) = token (skip_separators s) in
      let (bl, h3, kb) = trim_end_lem t in
      let back : sp ++ ((trim_end t ++ bl) ++ rest) ≡ s =
        ap (λ x. sp ++ (x ++ rest)) (sym h3) ∙ ap (λ x. sp ++ x) (sym h2) ∙ sym h1 in
      subst (HasElement want) back (
        element sp (trim_end t) bl rest ks
          (Without-append 44 (trim_end t) bl (subst (Without 44) h3 kt)).0 same kb kz)

  element_behind :
      (s : Bytes)
      → (token (skip_separators s)).1 ≢ []
      → HasElement want (token (skip_separators s)).1
      → HasElement want s
  element_behind s ne later =
      let (sp, h1, ks) = skip_separators_lem s in
      let (h2, kt, kz) = token_lem (skip_separators s) in
      let (t, rest) = token (skip_separators s) in
      elim kz [
        | inl none_left ↦ absurd (ne none_left)
        | inr (q, comma) ↦
            let back : (sp ++ t) ++ (44 ∷ q) ≡ s =
              append_assoc sp t (44 ∷ q)
              ∙ ap (λ x. sp ++ (t ++ x)) (sym comma)
              ∙ ap (λ x. sp ++ x) (sym h2)
              ∙ sym h1 in
            subst (HasElement want) back (behind (sp ++ t) q (subst (HasElement want) comma later))
      ]

  has_in-HasElement : (f : ℕ) (v : Bytes) → has_in f v want ≡ true → HasElement want v
  unfolding has_in
  has_in-HasElement zero v h = absurd (ground (arith, h))
  has_in-HasElement (suc f) [] h = absurd (ground (arith, h))
  has_in-HasElement (suc f) (c ∷ v) h =
      let (t, rest) = token (skip_separators (c ∷ v)) in
      elim (Bool-cases (value_is (trim_end t) want)) [
        | inl e ↦ element_at (c ∷ v) (value_is-IsCaseless (trim_end t) want e)
        | inr e ↦
            let later : has_in f rest want ≡ true = rw (e, has_in) at h in
            element_behind (c ∷ v)
              (λ none_left.
                ground
                  (arith, sym (ap (λ x. has_in f x want) none_left) ∙ later, has_in_nil f want))
              (has_in-HasElement f rest later)
      ]

pub value_has-HasElement : (v want : Bytes) → value_has v want ≡ true → HasElement want v
unfolding value_has
value_has-HasElement v want h = has_in-HasElement want (length v) v h

module _ (name v : Bytes) where
  -- A line that has the name in front of a colon.
  named_line :
      (l : Bytes)
      → is_named name l ≡ true
      → skip_blanks (drop (suc (length name)) l) ≡ v
      → (nm : Bytes) × (bl : Bytes) × (l ≡ nm ++ (58 ∷ (bl ++ v))) × IsCaseless nm name × Blanks bl
  named_line l e same =
      let (bl, h, kb) = skip_blanks_lem (drop (suc (length name)) l) in
      let long : ltb (length name) (length l) ≡ true = ground (arith, e) in
      let colon : (get_or l (length name) 0 == 58) ≡ true = ground (arith, e) in
      let alike : bytes_eq (map lower (take (length name) l)) (map lower name) ≡ true =
        ground (arith, e) in
      (
        take (length name) l,
        bl,
        split_at (length name) l (ltb→lt (length name) (length l) long)
            ∙ ap (λ x. take (length name) l ++ (x ∷ drop (suc (length name)) l))
                ((==_iff (get_or l (length name) 0) 58).0 colon)
            ∙ ap (λ x. take (length name) l ++ (58 ∷ x)) (h ∙ ap (λ x. bl ++ x) same),
        bytes_eq-IsCaseless (take (length name) l) name alike,
        kb,
      )

  field_at :
      (s : Bytes)
      → is_named name (without_return (line s).0) ≡ true
      → skip_blanks (drop (suc (length name)) (without_return (line s).0)) ≡ v
      → HasField name v s
  field_at s e same =
      let (only, split) = line_lem s in
      let (l, rest) = line s in
      let (r, h, kr) = without_return_lem l in
      let (nm, bl, k, alike, kb) = named_line (without_return l) e same in
      let whole : l ≡ (nm ++ (58 ∷ (bl ++ v))) ++ r = h ∙ ap (λ x. x ++ r) k in
      let one : Without 10 ((nm ++ (58 ∷ (bl ++ v))) ++ r) = subst (Without 10) whole only in
      let value_line : Without 10 v =
        (Without-append 10 bl v
          (Without-append 10 nm (58 ∷ (bl ++ v))
            (Without-append 10 (nm ++ (58 ∷ (bl ++ v))) r one).0).1.1).1 in
      elim split [
        | inl with_end ↦
            subst (HasField name v) (sym (with_end ∙ ap (λ x. x ++ (10 ∷ rest)) whole))
              (here nm bl r (10 ∷ rest) alike kb value_line kr (inr (rest, refl)))
        | inr (last_line, none_left) ↦
            subst (HasField name v)
              (append-nil ((nm ++ (58 ∷ (bl ++ v))) ++ r) ∙ sym (last_line ∙ whole))
              (here nm bl r [] alike kb value_line kr (inl refl))
      ]

  header_in-HasField : (f : ℕ) (s : Bytes) → header_in f name s ≡ some v → HasField name v s
  unfolding header_in
  header_in-HasField zero s h = absurd (no_value v h)
  header_in-HasField (suc f) [] h = absurd (no_value v h)
  header_in-HasField (suc f) (c ∷ s) h =
      let (only, split) = line_lem (c ∷ s) in
      let (l, rest) = line (c ∷ s) in
      let l' = without_return l in
      elim (Bool-cases (length l' == 0)) [
        | inl e ↦ absurd (no_value v (rw (e, header_in) at h))
        | inr full ↦ elim (Bool-cases (is_named name l')) [
          | inl e ↦
              let found : some (skip_blanks (drop (length name + 1) l')) ≡ some v =
                rw (full, e, header_in) at h in
              field_at (c ∷ s) e (same_value (length name) l' found)
          | inr e ↦
              let later : header_in f name rest ≡ some v = rw (full, e, header_in) at h in
              elim split [
                | inl with_end ↦
                    subst (HasField name v) (sym with_end)
                      (there l rest only (header_in-HasField f rest later))
                | inr (last_line, none_left) ↦ absurd (
                    no_value v (
                      sym (header_in_nil f name)
                      ∙ ap (λ x. header_in f name x) (sym none_left)
                      ∙ later))
              ]
        ]
      ]
    where
      same_value :
          (n : ℕ) (l : Bytes)
          → some (skip_blanks (drop (n + 1) l)) ≡ some v
          → skip_blanks (drop (suc n) l) ≡ v
      same_value n l h =
          let one : suc n ≡ n + 1 = omega arith in ap (λ k. skip_blanks (drop k l)) one ∙ cc h

pub header_value-HasHeader :
    (text name v : Bytes) → header_value text name ≡ some v → HasHeader name v text
unfolding header_value
header_value-HasHeader text name v h =
    let (only, split) = line_lem text in
    let (status, rest) = line text in
    elim split [
      | inl with_end ↦
          (status, rest, with_end, only, header_in-HasField name v (length rest) rest h)
      | inr (whole, none_left) ↦ absurd (
          no_value v (
            sym (header_in_nil (length rest) name)
            ∙ ap (λ x. header_in (length rest) name x) (sym none_left)
            ∙ h))
    ]
