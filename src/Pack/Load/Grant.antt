-- ===== src/Pack/Load/Grant.antt =====
-- What the licence of a pack that is loaded grants.
use obs_foxfire.Licence.{ok, newer, invalid, unchecked, Licence, canonical, is_for_other}
use obs_foxfire.Licence.Verdict.{Sound, verify-Sound}
use obs_foxfire.Pack.Load.{Store}
use obs_foxfire.Pack.Load.Manifest.{read_licence}
use obs_foxfire.Prelude.{
  Bool-cases, Option-cases, length, Bytes, codes, bytes_eq, bytes_eq_iff, ◌≡◌, refl, ◌≢◌, ◌↔◌, ◌⊎◌,
  inl, inr, Bool, true, false, some, ◌++◌, arith,
}
use obs_foxfire.Prelude.Int.{ℤ, ◌≤ℤ◌}

not_other : (own id : Bytes) → is_for_other own (some id) ≡ false → own ≡ id
not_other own id h = elim (Bool-cases (bytes_eq own id)) [
  | inl e ↦ (bytes_eq_iff own id).0 e
  | inr e ↦ absurd (ground (arith, (rw e at h)))
]

module _ (store : Store) where
  -- The licence stands in the directory's licence.json, names this very pack, and was signed over the fields
  -- returned, and is enough exactly for a release by its end.
  pub record IsGranted (dir id : Bytes) (released : ℤ) (l : Licence) : Type 0 where
    pub text : Bytes
    pub own_file : store.text_file (dir ++ codes "/licence.json") ≡ some text
    pub own_pack : l.pack_id ≡ id
    pub signed :
        (sig : Bytes) × (canon : Bytes) × (length sig ≡ 64)
        × (canonical l.discord_id l.pack_id l.licence_id l.issued l.entitled_through 512
            ≡ some canon)
        × (store.check sig store.public_key canon ≡ true)
    pub decided : (l.state ≡ ok) ↔ (released ≤ℤ l.entitled_through)
    pub otherwise : (l.state ≡ ok) ⊎ (l.state ≡ newer)

  pub read_licence-unlicensed :
      (dir id : Bytes) (licensed : Bool) (released : ℤ)
      → licensed ≡ false
      → (read_licence store dir id licensed released).state ≡ unchecked
  unfolding read_licence
  read_licence-unlicensed dir id false released e = refl
  read_licence-unlicensed dir id true released e = cc

  of_Sound :
      (dir id text : Bytes) (released : ℤ) (l : Licence)
      → store.text_file (dir ++ codes "/licence.json") ≡ some text
      → Sound store.check store.public_key (some id) released l
      → IsGranted dir id released l
  of_Sound dir id text released l there ((sig, canon, n, c, good, own), decided, otherwise) =
      record {
        text = text;
        own_file = there;
        own_pack = not_other l.pack_id id own;
        signed = (sig, canon, n, c, good);
        decided = decided;
        otherwise = otherwise;
      }

  pub read_licence-IsGranted :
      (dir id : Bytes) (licensed : Bool) (released : ℤ)
      → licensed ≡ true
      → (read_licence store dir id licensed released).state ≢ invalid
      → IsGranted dir id released (read_licence store dir id licensed released)
  unfolding read_licence
  read_licence-IsGranted dir id false released e ne = cc
  read_licence-IsGranted dir id true released e ne =
      elim (Option-cases (store.text_file (dir ++ codes "/licence.json"))) [
        | inl missing ↦ absurd (ne (rw missing refl))
        | inr (text, there) ↦ rw there (
            of_Sound dir id text released _ there
              (verify-Sound store.check store.public_key (some id) text released (rw there at ne)))
      ]
