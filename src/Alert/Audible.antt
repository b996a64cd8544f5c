-- ===== src/Alert/Audible.antt =====
-- The sound child of the alert source of src/ff-alert-source.c: when it was last told to play.
use obs_foxfire.Alert.{Source, Call, restart, stop, release, asks}
use obs_foxfire.Prelude.{
  ◌==◌, if◌then◌else◌, ℕ, ◌≡◌, refl, sym, ◌∙◌, Bool, true, false, some, List, [], ◌∷◌,
}

-- Whether the child `s` was told to play, and not to stop since, nor let go: the newest call decides.
abbrev pub after : ℕ → Call → Bool → Bool
after s (restart t) b = if t == s then true else b
after s (stop t) b = if t == s then false else b
after s (release t) b = if t == s then false else b
after s _ b = b

unfoldable pub loud : ℕ → List Call → Bool
loud s [] = false
loud s (c ∷ cs) = after s c (loud s cs)

-- A child that plays is the one that the source has.
abbrev pub Owned : Source → Type 0
Owned a = (s : ℕ) → loud s a.calls ≡ true → a.sound ≡ some s

-- A step that makes no child play.
pub record Calm (a b : Source) : Type 0 where
  pub calm_loud : (s : ℕ) → loud s b.calls ≡ true → loud s a.calls ≡ true
  pub calm_owned : Owned a → Owned b
  pub calm_playing : b.playing ≡ a.playing

pub calm : (a : Source) → Calm a a
calm a = record { calm_loud = λ s h. h; calm_owned = λ o. o; calm_playing = refl }

pub Calm-trans : {a b c : Source} → Calm a b → Calm b c → Calm a c
Calm-trans p q = record {
  calm_loud = λ s h. p.calm_loud s (q.calm_loud s h);
  calm_owned = λ o. q.calm_owned (p.calm_owned o);
  calm_playing = q.calm_playing ∙ p.calm_playing;
}

-- A call that is none of the three.
pub asks-Calm : (c : Call) (a : Source) → ((s : ℕ) (b : Bool) → after s c b ≡ b) → Calm a (asks c a)
unfolding asks loud
asks-Calm c a e = record {
  calm_loud = λ s h. sym (e s (loud s a.calls)) ∙ h;
  calm_owned = λ o s h. o s (sym (e s (loud s a.calls)) ∙ h);
  calm_playing = refl;
}

-- The fields that do not matter to it.
pub unheard-Calm :
    {a b : Source} → b.calls ≡ a.calls → b.sound ≡ a.sound → b.playing ≡ a.playing → Calm a b
unheard-Calm {a} {b} c s p = record {
  calm_loud = λ t h. rw (← c) h;
  calm_owned = λ o t h. s ∙ o t (rw (← c) h);
  calm_playing = p;
}
