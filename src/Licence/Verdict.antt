-- ===== src/Licence/Verdict.antt =====
-- What `ff_licence_verify` decides, and on what.
use obs_foxfire.Prelude.{
  ◌==◌, ==_iff, Bool-cases, Option-cases, length, Bytes, codes, ◌≡◌, refl, sym, ap, ◌∙◌, subst, ◌≢◌,
  ◌↔◌, ◌⊎◌, inl, inr, Bool, true, false, Option, some, arith,
}
use obs_foxfire.Prelude.Int.{ℤ, leb_ℤ, ◌≤ℤ◌}
use obs_foxfire.Licence.{
  found, b64dec, canonical, because, need, entitle, is_for_other, wrong_pack, judge,
  check_signature, verify, Licence, ok, newer, invalid, Got, absent, unusable,
}

module _ (check : Bytes → Bytes → Bytes → Bool) (pubkey : Bytes) (expected : Option Bytes) where
  -- A signature over the text of these very fields was accepted, and the pack is the expected one.
  abbrev pub Genuine : Licence → Type 0
  Genuine l =
      (sig : Bytes) × (canon : Bytes) × (length sig ≡ 64)
      × (canonical l.discord_id l.pack_id l.licence_id l.issued l.entitled_through 512 ≡ some canon)
      × (check sig pubkey canon ≡ true)
      × (is_for_other l.pack_id expected ≡ false)

  -- A verdict that is `invalid` whatever the date, or is about a genuine licence and decided by the date.
  abbrev pub Shape : (ℤ → Licence) → Type 0
  Shape verdict =
      ((l : Licence) × (l.state ≡ invalid) × ((r : ℤ) → verdict r ≡ l))
      ⊎ ((l : Licence) × Genuine l × ((r : ℤ) → verdict r ≡ entitle l r))

  need-Shape :
      {A : Type 0} (l : Licence) (key what : Bytes) (g : Got A) (next : A → ℤ → Licence)
      → l.state ≡ invalid
      → ((a : A) → Shape (next a))
      → Shape (λ r. need l key what g (λ a. next a r))
  unfolding need
  need-Shape l key what absent next i h = inl (_, i, λ r. refl)
  need-Shape l key what unusable next i h = inl (_, i, λ r. refl)
  need-Shape l key what (found a) next i h = h a

  judge-Shape :
      (l : Licence) (sig : Bytes)
      → l.state ≡ invalid
      → length sig ≡ 64
      → Shape (λ r. judge check l sig pubkey expected r)
  unfolding judge
  judge-Shape l sig i n =
      elim (Option-cases
        (canonical l.discord_id l.pack_id l.licence_id l.issued l.entitled_through 512)) [
          | inl a ↦
              inl (
                because l (codes "licence signature does not verify"),
                i,
                λ r. (rw (a, judge) refl),
              )
          | inr (canon, a) ↦ elim (Bool-cases (check sig pubkey canon)) [
            | inr b ↦ inl (
              because l (codes "licence signature does not verify"),
              i,
              λ r. (rw (a, judge, b) refl),
            )
            | inl b ↦ elim (Bool-cases (is_for_other l.pack_id expected)) [
              | inl c ↦ inl (because l (wrong_pack l expected), i, λ r. (rw (a, judge, b, c) refl))
              | inr c ↦ inr (l, (sig, canon, n, a, b, c), λ r. (rw (a, judge, b, c) refl))
            ]
          ]
        ]

  Shape-at : (f g : ℤ → Licence) → Shape g → ((r : ℤ) → f r ≡ g r) → Shape f
  Shape-at f g (inl (l, i, h)) e = inl (l, i, λ r. e r ∙ h r)
  Shape-at f g (inr (l, i, h)) e = inr (l, i, λ r. e r ∙ h r)

  check_signature-Shape :
      (l : Licence) (sig64 : Bytes)
      → l.state ≡ invalid
      → Shape (λ r. check_signature check l sig64 pubkey expected r)
  unfolding check_signature
  check_signature-Shape l sig64 i =
      let unsigned = because l (codes "licence signature is not 64 bytes of base64") in
      elim (Option-cases (b64dec sig64 64)) [
        | inl a ↦ inl (unsigned, i, λ r. (rw (a, check_signature) refl))
        | inr (sig, a) ↦ elim (Bool-cases (length sig == 64)) [
          | inr b ↦ inl (unsigned, i, λ r. (rw (a, check_signature, b) refl))
          | inl b ↦
              Shape-at _ _ (judge-Shape l sig i ((==_iff (length sig) 64).0 b))
                (λ r. (rw (a, check_signature, b) refl))
        ]
      ]

  verify-Shape : (json : Bytes) → Shape (verify check json pubkey expected)
  unfolding verify
  verify-Shape json = need-Shape _ _ _ _ _ refl (λ d. need-Shape _ _ _ _ _ refl (λ p.
      need-Shape _ _ _ _ _ refl (λ i. need-Shape _ _ _ _ _ refl (λ n.
        need-Shape _ _ _ _ _ refl
          (λ e. need-Shape _ _ _ _ _ refl (λ s. check_signature-Shape _ s refl))))))

  abbrev pub Sound : ℤ → Licence → Type 0
  Sound released l =
      Genuine l
      × ((l.state ≡ ok) ↔ (released ≤ℤ l.entitled_through))
      × ((l.state ≡ ok) ⊎ (l.state ≡ newer))

  entitle-Sound : (l : Licence) (released : ℤ) → Genuine l → Sound released (entitle l released)
  unfolding entitle
  entitle-Sound l released g = elim (Bool-cases (leb_ℤ released l.entitled_through)) [
    | inl h ↦ rw h (g, (λ x. ground (arith, h), λ x. refl), inl refl)
    | inr h ↦ rw h (g, (λ x. ground (arith, x), λ x. ground (arith, h, x)), inr refl)
  ]

  -- A verdict is `ok` or `newer` only for a genuine licence: a signature of 64 bytes over the text of
  -- the fields returned was accepted and the pack is the expected one, if any is; it is `ok` exactly
  -- if besides the pack was released by the end of the entitlement.
  pub verify-Sound :
      (json : Bytes) (released : ℤ)
      → (verify check json pubkey expected released).state ≢ invalid
      → Sound released (verify check json pubkey expected released)
  verify-Sound json released ne = elim (verify-Shape json) [
    | inl (l, i, h) ↦ absurd (ne (ap (λ x. x.state) (h released) ∙ i))
    | inr (l, g, h) ↦ subst (Sound released) (sym (h released)) (entitle-Sound l released g)
  ]

  -- Who is granted a pack that was released at one date is granted it if it was released before: only
  -- the two dates decide, and no clock.
  pub verify_mono :
      (json : Bytes) (released earlier : ℤ)
      → (verify check json pubkey expected released).state ≡ ok
      → earlier ≤ℤ released
      → (verify check json pubkey expected earlier).state ≡ ok
  unfolding entitle
  verify_mono json released earlier h le = elim (verify-Shape json) [
    | inl (l, i, e) ↦ (rw (e earlier) (ap (λ x. x.state) (sym (e released)) ∙ h))
    | inr (l, g, e) ↦ ground (arith, h, le, e earlier, e released)
  ]
