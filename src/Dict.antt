-- ===== src/Dict.antt =====
-- Python's `dict` with text keys: pairs in the order of first insertion.
pub mod Laws
use standards_control_plane.Prelude.{
  Bool, List, Option, String, [], false, if◌then◌else◌, map, none, some, ◌==◌, ◌||◌, ◌∷◌, ◌≡◌,
}

abbrev pub Dict {ℓ} : Type ℓ → Type ℓ
Dict V = List (String × V)

module _ {ℓ} {V : Type ℓ} where
  -- `d.get(k)`
  unfoldable pub get : String → Dict V → Option V
  get k [] = none
  get k ((j, v) ∷ d) = if j == k then some v else get k d

  -- `d[k] = v`: a key that is there keeps its place.
  unfoldable pub put : String → V → Dict V → Dict V
  put k v [] = (k, v) ∷ []
  put k v ((j, w) ∷ d) = if j == k then (j, v) ∷ d else (j, w) ∷ put k v d

  -- `d.values()`
  abbrev pub values : Dict V → List V
  values d = map (λ p. p.1) d

  abbrev pub keys : Dict V → List String
  keys d = map (λ p. p.0) d

  -- `k in d`
  unfoldable pub contains : String → Dict V → Bool
  contains k [] = false
  contains k ((j, v) ∷ d) = j == k || contains k d

  -- No key stands twice.
  abbrev pub IsDict : Dict V → Type 0
  IsDict [] = Unit
  IsDict ((j, v) ∷ d) = (contains j d ≡ false) × IsDict d

  -- `d.update(e)`
  unfoldable pub update : Dict V → Dict V → Dict V
  unfolding put
  update d [] = d
  update d ((k, v) ∷ e) = update (put k v d) e
