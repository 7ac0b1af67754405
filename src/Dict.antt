-- ===== src/Dict.antt =====
-- Python's `dict` with text keys: an association list in the order of insertion. An assignment to
-- a key that is there keeps its place, a new key goes to the end, as iteration shows them.
pub mod Laws
use agents_protocol.Prelude.{
  String, Bool, Option, none, some, List, [], ◌∷◌, map, ◌==◌, is_some, if◌then◌else◌,
}

abbrev pub Dict {ℓ} : Type ℓ → Type ℓ
Dict V = List (String × V)

module _ {ℓ} {V : Type ℓ} where
  -- d.get(k)
  unfoldable pub get : String → Dict V → Option V
  get k [] = none
  get k ((j, v) ∷ d) = let rest = get k d in if j == k then some v else rest

  -- k in d
  abbrev pub has : String → Dict V → Bool
  has k d = is_some (get k d)

  -- d[k] = v
  unfoldable pub put : String → V → Dict V → Dict V
  put k v [] = (k, v) ∷ []
  put k v ((j, w) ∷ d) = let rest = put k v d in if j == k then (j, v) ∷ d else (j, w) ∷ rest

  -- del d[k], d.pop(k, None)
  unfoldable pub remove : String → Dict V → Dict V
  remove k [] = []
  remove k ((j, w) ∷ d) = let rest = remove k d in if j == k then rest else (j, w) ∷ rest

  -- list(d.keys())
  abbrev pub keys : Dict V → List String
  keys = map (λ e. e.0)

  -- list(d.values())
  abbrev pub values : Dict V → List V
  values = map (λ e. e.1)
