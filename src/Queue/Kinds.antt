-- ===== src/Queue/Kinds.antt =====
-- The names of the alert kinds.
use obs_foxfire.Prelude.{
  Bool-cases, Bytes, bytes_eq, bytes_eq_iff, ℕ, ◌+◌, ◌≤◌, ◌≡◌, refl, ◌∙◌, subst, ◌↔◌, inl, inr,
  none, some, List, [], ◌∷◌, arith, get_elem?_of_le,
}
use obs_foxfire.Prelude.Int.{pos, negsuc}
use obs_foxfire.Queue.{
  kind_ids, kind_value, kind_id, kind_search, kind_parse, Kind, follow, sub, resub, gift, bits,
  raid, redeem,
}

parse-id : (k : Kind) → kind_parse (kind_id (pos (kind_value k))) ≡ some k
unfolding kind_parse kind_id kind_value
parse-id follow = refl
parse-id sub = refl
parse-id resub = refl
parse-id gift = refl
parse-id bits = refl
parse-id raid = refl
parse-id redeem = refl

abbrev Named : List (Kind × Bytes) → Type 0
Named [] = Unit
Named ((k, name) ∷ rest) = (kind_id (pos (kind_value k)) ≡ name) × Named rest

kind_search_sound :
    (l : List (Kind × Bytes)) (id : Bytes) (k : Kind)
    → Named l
    → kind_search l id ≡ some k
    → kind_id (pos (kind_value k)) ≡ id
unfolding kind_search
kind_search_sound [] id k n h = cc
kind_search_sound ((j, name) ∷ rest) id k n h = elim (Bool-cases (bytes_eq name id)) [
  | inl same ↦
      let e : some j ≡ some k = rw same at h in
      subst (λ (x : Kind). kind_id (pos (kind_value x)) ≡ id) (cc e)
        (n.0 ∙ (bytes_eq_iff name id).0 same)
  | inr other ↦ kind_search_sound rest id k n.1 (rw other at h)
]

id-parse : (id : Bytes) (k : Kind) → kind_parse id ≡ some k → kind_id (pos (kind_value k)) ≡ id
unfolding kind_parse kind_id kind_value
id-parse id k h =
    kind_search_sound kind_ids id k (refl, (refl, (refl, (refl, (refl, (refl, (refl, tt))))))) h

kind_above : (n : ℕ) → 7 ≤ n → kind_parse (kind_id (pos n)) ≡ none
kind_above n h = unfold kind_parse kind_id in rw (get_elem?_of_le kind_ids n h)

-- `ff_alert_kind_parse` accepts exactly the name that `ff_alert_kind_id` gives the kind it returns,
-- and `ff_alert_kind_id` answers "unknown" for every value outside the enumeration, which
-- `ff_alert_kind_parse` refuses.
pub kind_parse_iff :
    (id : Bytes) (k : Kind)
    → ((kind_parse id ≡ some k) ↔ (kind_id (pos (kind_value k)) ≡ id))
      × ((n : ℕ) → kind_parse (kind_id (pos (7 + n))) ≡ none)
      × ((n : ℕ) → kind_parse (kind_id (negsuc n)) ≡ none)
kind_parse_iff id k =
    ((id-parse id k, λ e. subst (λ s. kind_parse s ≡ some k) e (parse-id k)), above, below)
  where
    above : (n : ℕ) → kind_parse (kind_id (pos (7 + n))) ≡ none
    above n = kind_above (7 + n) (omega arith)

    below : (n : ℕ) → kind_parse (kind_id (negsuc n)) ≡ none
    below n = unfold kind_parse kind_id in refl
