-- ===== src/Pack/Shared.antt =====
-- The directory that every plugin of the family reads.
use obs_foxfire.Pack.{anchor, last_anchor, ends_in_slash, shared_config_path}
use obs_foxfire.Prelude.{
  leb, length, take, Bytes, codes, ℕ, suc, ◌≡◌, refl, true, none, some, [], ◌∷◌, ◌++◌, append-nil,
}

-- The anchor in front of a slash is found there, if no other stands behind it.
at_anchor :
    (t : Bytes)
    → last_anchor t ≡ none
    → last_anchor (anchor ++ (b'/' ∷ t)) ≡ some ([], anchor ++ (b'/' ∷ t))
unfolding last_anchor
at_anchor t h = rw (h, last_anchor) refl

behind :
    (root s at before : Bytes)
    → last_anchor s ≡ some (before, at)
    → last_anchor (root ++ s) ≡ some (root ++ before, at)
unfolding last_anchor
behind [] s at before h = h
behind (c ∷ root) s at before h = rw (last_anchor, behind root s at before h) refl

-- Whatever the plugin's own directory is, behind the last `plugin_config/` of its path, the shared
-- directory is the one next to it that is named foxfire: it depends on what stands before alone. The
-- call succeeds exactly if the path fits.
pub shared_config_path_lem :
    (root own leaf : Bytes) (cap : ℕ)
    → ends_in_slash root ≡ true
    → last_anchor own ≡ none
    → (let path = root ++ (anchor ++ (codes "/foxfire/" ++ leaf)) in
        shared_config_path (root ++ (anchor ++ (b'/' ∷ own))) leaf (suc cap)
        ≡ (leb (length path) cap, some (take cap path)))
unfolding shared_config_path
shared_config_path_lem root own leaf size h n =
    rw
      (
        behind root (anchor ++ (b'/' ∷ own)) (anchor ++ (b'/' ∷ own)) [] (at_anchor own n),
        shared_config_path,
        append-nil root,
        h,
      )
      refl
