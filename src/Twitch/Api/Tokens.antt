-- ===== src/Twitch/Api/Tokens.antt =====
-- The stored sign-in, the end of src/ff-twitch-api.c.
use obs_foxfire.EventSub.{Json}
use obs_foxfire.Pack.{shared_config_path}
use obs_foxfire.Twitch.Api.{Token}
use obs_foxfire.Prelude.{
  if◌then◌else◌, Bool-cases, Option-cases, length, take_all, Bytes, codes, bytes_eq, is_empty, clip,
  ◌≤◌, ◌≡◌, refl, inl, inr, Bool, true, false, Option, none, some, List, [], ◌∷◌, arith,
}
use obs_foxfire.Prelude.Int.{pos}

-- The disk: `obs_data_create_from_json_file`, `obs_data_save_json_safe` of an object made by
-- `obs_data_set_string` of the keys and strings listed, in that order, `chmod` to 0600 and `remove`.
pub record Files : Type 1 where
  pub World : Type 0
  pub json : Json
  pub load_json : World → Bytes → Option json.Data × World
  pub save_json : World → Bytes → List (Bytes × Bytes) → Bool × World
  pub restrict : World → Bytes → Bool × World
  pub remove : World → Bytes → World

-- `token_path`, into a buffer of 1024 bytes; `none` is the return of false.
unfoldable pub token_path : Bytes → Option Bytes
unfolding shared_config_path
token_path module_path =
    let (ok, path) = shared_config_path module_path (codes "twitch.json") 1024 in
    if ok then path else none

module _ (files : Files) where
  open files use {World, json, load_json, save_json, restrict, remove}

  -- What `ff_twitch_token_save` sets.
  abbrev pub entries : Token → List (Bytes × Bytes)
  entries t = (codes "refresh", t.refresh) ∷ (codes "scopes", t.scope_list) ∷ []

  -- `ff_twitch_token_save`; a failure to restrict the file is only logged.
  unfoldable pub token_save : World → Bytes → Token → Bool × World
  unfolding token_path
  token_save w module_path t = elim (token_path module_path) [
    | none ↦ (false, w)
    | some path ↦
        let (ok, w1) = save_json w path (entries t) in
        let (restricted, w2) = restrict w1 path in if ok then (true, w2) else (false, w1)
  ]

  abbrev pub stored : Bytes → Bytes → Token
  stored r s = record {
    access = [];
    refresh = clip 512 r;
    expires_at = pos 0;
    scope_list = clip 512 s;
  }

  -- `ff_twitch_token_load`; `none` is the return of false.
  unfoldable pub token_load : World → Bytes → Option Token × World
  unfolding token_path
  token_load w module_path = elim (token_path module_path) [
    | none ↦ (none, w)
    | some path ↦
        let (o, w') = load_json w path in
        elim o [
          | none ↦ (none, w')
          | some d ↦
              let t =
                stored (json.get_string d (codes "refresh")) (json.get_string d (codes "scopes")) in
              (if is_empty t.refresh then none else some t, w')
        ]
  ]

  -- `ff_twitch_token_forget`
  unfoldable pub token_forget : World → Bytes → World
  unfolding token_path
  token_forget w module_path = elim (token_path module_path) [
    | none ↦ w
    | some path ↦ remove w path
  ]

-- The string that is listed first under a key, and the empty one if none is.
pub entry : List (Bytes × Bytes) → Bytes → Bytes
entry [] key = []
entry ((k, v) ∷ es) key = let before = entry es key in if bytes_eq k key then v else before

-- What is relied on of the disk: of a file that was saved, every key gives
-- the string that was set under it, whatever the permissions; and a file that was removed is
-- not read.
pub record Disk (files : Files) : Type 1 where
  pub holds : files.World → Bytes → List (Bytes × Bytes) → Type 0
  pub saved :
      (w : files.World) (path : Bytes) (es : List (Bytes × Bytes))
      → (files.save_json w path es).0 ≡ true
      → holds (files.save_json w path es).1 path es
  pub kept :
      (w : files.World) (path : Bytes) (es : List (Bytes × Bytes))
      → holds w path es
      → holds (files.restrict w path).1 path es
  pub read :
      (w : files.World) (path : Bytes) (es : List (Bytes × Bytes))
      → holds w path es
      → (d : files.json.Data) × ((files.load_json w path).0 ≡ some d)
        × ((key : Bytes) → files.json.get_string d key ≡ entry es key)
  pub gone :
      (w : files.World) (path : Bytes) → (files.load_json (files.remove w path) path).0 ≡ none

module _ (files : Files) (disk : Disk files) where
  open files use {World, json, load_json, save_json, restrict, remove}

  -- A sign-in that was saved is loaded again, but for the access token, which is not stored.
  pub token_load-token_save :
      (w : World) (module_path : Bytes) (t : Token)
      → is_empty t.refresh ≡ false
      → length t.refresh ≤ 511
      → length t.scope_list ≤ 511
      → (token_save files w module_path t).0 ≡ true
      → (token_load files (token_save files w module_path t).1 module_path).0
        ≡ some (record t { access = []; expires_at = pos 0 })
  unfolding token_save token_load entry
  token_load-token_save w module_path t full small few h =
      elim (Option-cases (token_path module_path)) [
        | inl e ↦ ground (arith, (rw (e, token_save) at h))
        | inr (path, e) ↦ elim (Bool-cases (save_json w path (entries files t)).0) [
          | inr failed ↦ ground (arith, (rw (e, token_save, failed) at h))
          | inl ok ↦
              let w1 = (save_json w path (entries files t)).1 in
              let (d, there, found) =
                disk.read (restrict w1 path).1 path (entries files t)
                  (disk.kept w1 path (entries files t) (disk.saved w path (entries files t) ok)) in
              let moved : (token_save files w module_path t).1 ≡ (restrict w1 path).1 =
                rw (token_save, e, ok) refl in
              rw
                (
                  e,
                  moved,
                  token_load,
                  there,
                  found (codes "refresh"),
                  found (codes "scopes"),
                  take_all 511 t.refresh small,
                  take_all 511 t.scope_list few,
                  full,
                )
                refl
        ]
      ]

  -- A sign-in that was forgotten is not found again.
  pub token_load-token_forget :
      (w : World) (module_path : Bytes)
      → (token_load files (token_forget files w module_path) module_path).0 ≡ none
  unfolding token_load token_forget
  token_load-token_forget w module_path = elim (Option-cases (token_path module_path)) [
    | inl e ↦ rw (e, token_load) refl
    | inr (path, e) ↦
        let moved : token_forget files w module_path ≡ remove w path = rw (token_forget, e) refl in
        rw (e, moved, token_load, disk.gone w path) refl
  ]
