-- ===== src/Tests/Clients.antt =====
-- The Twitch client's pure parts, and paths of a pack.
use obs_foxfire.Twitch.{backoff_secs, scopes, form_escape}
use obs_foxfire.Twitch.Panel.{live, signing_in, Panel}
use obs_foxfire.Twitch.Panel.Requests.{Section, press_sign_in, take_sign_in, show}
use obs_foxfire.Pack.{id_ok, rel_ok, path_basename, is_rooted, has}
use obs_foxfire.Pack.Paths.{parts, walk, rel_ok_stays}
use obs_foxfire.Prelude.{codes, ◌≡◌, refl, ◌≢◌, true, false, none, some, List, [], ◌∷◌, map}
use obs_foxfire.Prelude.Int.{pos}

waits :
    map (λ n. backoff_secs (pos n)) (0 ∷ 1 ∷ 2 ∷ 3 ∷ 4 ∷ 5 ∷ 6 ∷ 7 ∷ 8 ∷ [])
    ≡ 1 ∷ 1 ∷ 2 ∷ 4 ∷ 8 ∷ 16 ∷ 32 ∷ 60 ∷ 60 ∷ []
unfolding backoff_secs
waits = refl

-- each scope once
all_scopes :
    scopes 512
    ≡ some (
        codes
          "moderator:read:followers channel:read:subscriptions bits:read channel:read:redemptions")
unfolding scopes
all_scopes = refl

no_room : scopes 40 ≡ none
unfolding scopes
no_room = refl

escaped : form_escape (codes "bits:read a") 64 ≡ some (codes "bits%3Aread%20a")
unfolding form_escape
escaped = refl

abbrev panel : Panel
panel = record {
  running = true;
  enabled = true;
  want_sign_in = false;
  want_sign_out = false;
  client_id = [];
  state = signing_in;
  line = codes "enter the code";
  code = codes "AB-CD";
  verify_url = codes "u";
}

abbrev run : List Section
run = press_sign_in ∷ press_sign_in ∷ take_sign_in ∷ show live (codes "live") ∷ take_sign_in ∷ []

ids : (id_ok (codes "demo-2") ≡ true) × (id_ok (codes "Demo") ≡ false) × (id_ok [] ≡ false)
unfolding id_ok
ids = (refl, refl, refl)

basename : path_basename (codes "/opt/packs\\demo") ≡ codes "demo"
unfolding path_basename
basename = refl

relative : (rel_ok (codes "effects/a.effect") ≡ true) × (rel_ok (codes "a/../../b") ≡ false)
unfolding rel_ok
relative = (refl, refl)

rel_ok_stays_example :
    (is_rooted (codes "effects/a.effect") ≡ false)
    × (let (first, rest) = parts (codes "effects/a.effect") in walk 0 (first ∷ rest) ≢ none)
    × (has b'\\' (codes "effects/a.effect") ≡ false)
    × (has b':' (codes "effects/a.effect") ≡ false)
rel_ok_stays_example = rel_ok_stays (codes "effects/a.effect") 0 relative.0
