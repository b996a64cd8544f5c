-- ===== src/Pack/Load/Gate.antt =====
-- What a pack that is loaded is like.
use obs_foxfire.Pack.{id_ok, rel_ok}
use obs_foxfire.Pack.Load.{
  Store, Layer, Preset, Pack, Checked, accepted, refused, kinds, is_known, max_layers, max_presets,
  is_kind_not, a_boolean, a_number, file_in_pack, override_of, read_layers, parse_preset,
  read_presets,
}
use obs_foxfire.Licence.{unchecked, invalid}
use obs_foxfire.Pack.Load.Grant.{IsGranted, read_licence-unlicensed, read_licence-IsGranted}
use obs_foxfire.Pack.Load.Manifest.{
  read_licence, licensee_of, finish_load, check_engine, read_manifest, load_pack,
}
use obs_foxfire.Prelude.{
  ltb, if◌then◌else◌, Bool-cases, Option-cases, length, Bytes, codes, is_empty, clip, ℕ, suc, ◌+◌,
  ◌≤◌, ◌≡◌, refl, ap, subst, ◌≢◌, ◌⊎◌, inl, inr, Bool, true, false, not, ◌&&◌, ◌||◌, List, [], ◌∷◌,
  ◌++◌, map, arith,
}
use obs_foxfire.Prelude.Int.{ℤ, pos, leb_ℤ, eqb_ℤ, to_int32}

pub Checked-cases :
    {A : Type 0} (r : Checked A)
    → ((why : Bytes) × (r ≡ refused why)) ⊎ ((a : A) × (r ≡ accepted a))
Checked-cases (refused why) = inl (why, refl)
Checked-cases (accepted a) = inr (a, refl)

accepted_same : {A : Type 0} {a b : A} → accepted a ≡ accepted b → a ≡ b
accepted_same e = cc

refused_ne : {A : Type 0} (why : Bytes) (a : A) → refused why ≢ accepted a
refused_ne why a e = ground (arith, e)

thumb_cases : (empty good : Bool) → (not empty && not good) ≡ false → (empty ≡ true) ⊎ (good ≡ true)
thumb_cases true good h = inl refl
thumb_cases false true h = inr refl
thumb_cases false false h = ground (arith, h)

within : (n m most : ℕ) → n ≡ m → (ltb m 1 || ltb most m) ≡ false → (1 ≤ n) × (n ≤ most)
within n m most e h = (ground (arith, e, h), ground (arith, e, h))

dated_cases :
    (licensed early : Bool) → (licensed && early) ≡ false → (licensed ≡ false) ⊎ (early ≡ false)
dated_cases true early h = inr h
dated_cases false early h = inl refl

module _ (store : Store) where
  open store use {Data, Real}

  -- The effects are files below the directory, by paths that stay in it.
  abbrev pub AreLayers : Bytes → List (Layer Real) → Type 0
  AreLayers dir [] = Unit
  AreLayers dir (l ∷ ls) =
      (rel_ok l.effect_path ≡ true)
      × (file_in_pack store dir l.effect_path ≡ true)
      × AreLayers dir ls

  pub record IsPreset (dir : Bytes) (pr : Preset Real) : Type 0 where
    pub named : id_ok pr.id ≡ true
    pub known : is_known kinds pr.kind ≡ true
    pub shown :
        (is_empty pr.thumb ≡ true) ⊎ ((rel_ok pr.thumb && file_in_pack store dir pr.thumb) ≡ true)
    pub some_layers : (1 ≤ length pr.layers) × (length pr.layers ≤ max_layers)
    pub layers_ok : AreLayers dir pr.layers

  abbrev pub ArePresets : Bytes → List (Preset Real) → Type 0
  ArePresets dir [] = Unit
  ArePresets dir (p ∷ ps) = IsPreset dir p × ArePresets dir ps

  pub record IsLoaded (dir : Bytes) (pk : Pack Real) : Type 0 where
    pub named : id_ok pk.id ≡ true
    pub dated : (pk.licensed ≡ false) ⊎ (leb_ℤ pk.released (pos 0) ≡ false)
    pub some_presets : (1 ≤ length pk.presets) × (length pk.presets ≤ max_presets)
    pub presets_ok : ArePresets (clip 1024 dir) pk.presets
    pub unlicensed : pk.licensed ≡ false → pk.licence.state ≡ unchecked
    pub granted :
        pk.licensed ≡ true
        → pk.licence.state ≢ invalid
        → IsGranted store dir pk.id pk.released pk.licence

  layers_read :
      (dir id : Bytes) (i : ℕ) (lds : List Data) (ls : List (Layer Real))
      → read_layers store dir id i lds ≡ accepted ls
      → (length ls ≡ length lds) × AreLayers dir ls
  unfolding read_layers
  layers_read dir id i [] ls h =
      subst (λ l. (length l ≡ 0) × AreLayers dir l) (accepted_same h) (refl, tt)
  layers_read dir id i (ld ∷ rest) ls h =
      let path = clip 512 (store.get_string ld (codes "effect")) in
      elim (Bool-cases (rel_ok path && file_in_pack store dir path)) [
        | inr bad ↦ absurd (refused_ne _ ls (rw (read_layers, bad) at h))
        | inl good ↦ elim (Checked-cases (read_layers store dir id (i + 1) rest)) [
          | inl (why, e) ↦ absurd (refused_ne why ls (rw (read_layers, good, e) at h))
          | inr (later, e) ↦
              let (n, all) = layers_read dir id (i + 1) rest later e in
              let l : Layer Real = record {
                effect_path = path;
                params = map (override_of store) (store.get_params ld);
              } in
              subst (λ x. (length x ≡ length (ld ∷ rest)) × AreLayers dir x)
                (accepted_same {a = l ∷ later} (rw (read_layers, good, e) at h))
                (ap suc n, (ground (arith, good), ground (arith, good), all))
        ]
      ]

  preset_read :
      (dir : Bytes) (pd : Data) (pr : Preset Real)
      → parse_preset store dir pd ≡ accepted pr
      → IsPreset dir pr
  unfolding parse_preset
  preset_read dir pd pr h =
      let id = clip 64 (store.get_string pd (codes "id")) in
      let kind = clip 16 (store.get_string pd (codes "kind")) in
      let thumb = clip 512 (store.get_string pd (codes "thumb")) in
      let layers = store.get_array pd (codes "layers") in
      elim (Bool-cases (id_ok id)) [
        | inr e1 ↦ absurd (refused_ne _ pr (rw (parse_preset, e1) at h))
        | inl e1 ↦ elim (Bool-cases (is_known kinds kind)) [
          | inr e2 ↦ absurd (refused_ne _ pr (rw (parse_preset, e1, e2) at h))
          | inl e2 ↦
              elim (Bool-cases
                (not (is_empty thumb) && not (rel_ok thumb && file_in_pack store dir thumb))) [
                  | inl e3 ↦ absurd (refused_ne _ pr (rw (parse_preset, e1, e2, e3) at h))
                  | inr e3 ↦
                      elim (Bool-cases (ltb (length layers) 1 || ltb max_layers (length layers))) [
                        | inl e4 ↦ absurd (refused_ne _ pr (rw (parse_preset, e1, e2, e3, e4) at h))
                        | inr e4 ↦ elim (Checked-cases (read_layers store dir id 0 layers)) [
                          | inl (why, e5) ↦
                              absurd
                                (refused_ne why pr (rw (parse_preset, e1, e2, e3, e4, e5) at h))
                          | inr (ls, e5) ↦
                              let (n, all) = layers_read dir id 0 layers ls e5 in
                              let v : Preset Real = record {
                                id = id;
                                name = clip 128 (store.get_string pd (codes "name"));
                                kind = kind;
                                thumb = thumb;
                                heavy = store.get_bool pd (codes "heavy");
                                layers = ls;
                              } in
                              subst (IsPreset dir)
                                (accepted_same {a = v} (rw (parse_preset, e1, e2, e3, e4, e5) at h))
                                (record {
                                  named = e1;
                                  known = e2;
                                  shown =
                                      thumb_cases (is_empty thumb)
                                        (rel_ok thumb && file_in_pack store dir thumb) e3;
                                  some_layers = within (length ls) (length layers) max_layers n e4;
                                  layers_ok = all;
                                })
                        ]
                      ]
                ]
        ]
      ]

  presets_read :
      (dir : Bytes) (pds : List Data) (prs : List (Preset Real))
      → read_presets store dir pds ≡ accepted prs
      → (length prs ≡ length pds) × ArePresets dir prs
  unfolding read_presets
  presets_read dir [] prs h =
      subst (λ l. (length l ≡ 0) × ArePresets dir l) (accepted_same h) (refl, tt)
  presets_read dir (pd ∷ rest) prs h = elim (Checked-cases (parse_preset store dir pd)) [
    | inl (why, e) ↦ absurd (refused_ne why prs (rw (read_presets, e) at h))
    | inr (pr, e) ↦ elim (Checked-cases (read_presets store dir rest)) [
      | inl (why, e') ↦ absurd (refused_ne why prs (rw (read_presets, e, e') at h))
      | inr (later, e') ↦
          let (n, all) = presets_read dir rest later e' in
          subst (λ x. (length x ≡ length (pd ∷ rest)) × ArePresets dir x)
            (accepted_same {a = pr ∷ later} (rw (read_presets, e, e') at h))
            (ap suc n, (preset_read dir pd pr e, all))
    ]
  ]

  finished :
      (dir : Bytes) (m : Data) (id : Bytes) (licensed : Bool) (released : ℤ) (pk : Pack Real)
      → id_ok id ≡ true
      → (licensed && leb_ℤ released (pos 0)) ≡ false
      → finish_load store dir m id licensed released ≡ accepted pk
      → IsLoaded dir pk
  unfolding finish_load
  finished dir m id licensed released pk named dated h =
      let ps = store.get_array m (codes "presets") in
      elim (Bool-cases (ltb (length ps) 1 || ltb max_presets (length ps))) [
        | inl bad ↦ absurd (refused_ne _ pk (rw (finish_load, bad) at h))
        | inr fits ↦ elim (Checked-cases (read_presets store (clip 1024 dir) ps)) [
          | inl (why, e) ↦ absurd (refused_ne why pk (rw (finish_load, fits, e) at h))
          | inr (prs, e) ↦
              let (n, all) = presets_read (clip 1024 dir) ps prs e in
              let v : Pack Real = record {
                id = id;
                name = clip 128 (store.get_string m (codes "name"));
                version = clip 32 (store.get_string m (codes "version"));
                dir = clip 1024 dir;
                licensed = licensed;
                released = released;
                presets = prs;
                licence = read_licence store dir id licensed released;
                licensee_name =
                    (if licensed
                      then licensee_of store (store.json_file (dir ++ codes "/licensee.json"))
                      else []);
              } in
              subst (IsLoaded dir) (accepted_same {a = v} (rw (finish_load, fits, e) at h))
                (record {
                  named = named;
                  dated = dated_cases licensed (leb_ℤ released (pos 0)) dated;
                  some_presets = within (length prs) (length ps) max_presets n fits;
                  presets_ok = all;
                  unlicensed = read_licence-unlicensed store dir id licensed released;
                  granted = read_licence-IsGranted store dir id licensed released;
                })
        ]
      ]

  manifest_read :
      (dir : Bytes) (m : Data) (pk : Pack Real)
      → read_manifest store dir m ≡ accepted pk
      → IsLoaded dir pk
  unfolding read_manifest
  manifest_read dir m pk h =
      let id = clip 64 (store.get_string m (codes "id")) in
      let licensed = store.get_bool m (codes "licensed") in
      let released = store.get_int m (codes "released") in
      elim (Bool-cases (eqb_ℤ (to_int32 (store.get_int m (codes "format"))) (pos 1))) [
        | inr e1 ↦ absurd (refused_ne _ pk (rw (read_manifest, e1) at h))
        | inl e1 ↦ elim (Bool-cases (is_kind_not (store.kind_of m (codes "licensed")) a_boolean)) [
          | inl e2 ↦ absurd (refused_ne _ pk (rw (read_manifest, e1, e2) at h))
          | inr e2 ↦ elim (Bool-cases (is_kind_not (store.kind_of m (codes "released")) a_number)) [
            | inl e3 ↦ absurd (refused_ne _ pk (rw (read_manifest, e1, e2, e3) at h))
            | inr e3 ↦ elim (Bool-cases (licensed && leb_ℤ released (pos 0))) [
              | inl e4 ↦ absurd (refused_ne _ pk (rw (read_manifest, e1, e2, e3, e4) at h))
              | inr e4 ↦ elim (Bool-cases (id_ok id)) [
                | inr e5 ↦ absurd (refused_ne _ pk (rw (read_manifest, e1, e2, e3, e4, e5) at h))
                | inl e5 ↦
                    elim (Checked-cases
                      (check_engine store (store.get_string m (codes "min_engine")))) [
                        | inl (why, e6) ↦
                            absurd
                              (refused_ne why pk (rw (read_manifest, e1, e2, e3, e4, e5, e6) at h))
                        | inr (fine, e6) ↦
                            finished dir m id licensed released pk e5 e4
                              (rw (read_manifest, e1, e2, e3, e4, e5, e6) at h)
                      ]
              ]
            ]
          ]
        ]
      ]

  -- A pack that is loaded has a good id, 1 to 64 presets of known kinds with 1 to 8 layers each, whose effects are
  -- files below its directory by paths that stay in it; if it is licensed it has a release date. A pack that is not
  -- licensed has an unchecked licence; a licensed one has one that is not invalid only if its own licence.json is
  -- there and the licence names the pack's own id and was signed for it, and it is then `ok` exactly if the pack was
  -- released by the end of the entitlement, and `newer` otherwise.
  pub load_pack-IsLoaded :
      (dir : Bytes) (pk : Pack Real) → load_pack store dir ≡ accepted pk → IsLoaded dir pk
  unfolding load_pack
  load_pack-IsLoaded dir pk h = elim (Option-cases (store.json_file (dir ++ codes "/pack.json"))) [
    | inl e ↦ absurd (refused_ne _ pk (rw (load_pack, e) at h))
    | inr (m, e) ↦ manifest_read dir m pk (rw (load_pack, e) at h)
  ]
