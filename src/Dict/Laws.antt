-- ===== src/Dict/Laws.antt =====
-- The laws of a `dict`: what a lookup finds after each write, and what happens to the keys.
use agents_protocol.Prelude.{
  String, ◌≡◌, refl, ◌+◌, none, some, [], ◌∷◌, ◌==◌, eq_iff, arith, if◌then◌else◌, contains, count,
  count_absent, IsNodup,
}
use agents_protocol.Dict.{Dict, get, has, put, remove, keys}

module _ {ℓ} {V : Type ℓ} where
  pub get-put :
      (j k : String) (v : V) (d : Dict V) → get j (put k v d) ≡ (if k == j then some v else get j d)
  unfolding get put
  get-put j k v [] = refl
  get-put j k v ((i, w) ∷ d) = ground (arith, eq_iff k j, eq_iff i k, eq_iff i j, get-put j k v d)

  pub get-remove :
      (j k : String) (d : Dict V) → get j (remove k d) ≡ (if k == j then none else get j d)
  unfolding get remove
  get-remove j k [] = ground arith
  get-remove j k ((i, w) ∷ d) = ground (arith, eq_iff k j, eq_iff i k, eq_iff i j, get-remove j k d)

  pub get-nil : (k : String) → get {V = V} k [] ≡ none
  unfolding get
  get-nil k = refl

  -- The keys are what lookups find.
  pub contains-keys : (k : String) (d : Dict V) → contains k (keys d) ≡ has k d
  unfolding get
  contains-keys k [] = refl
  contains-keys k ((i, w) ∷ d) = ground (arith, contains-keys k d)

  pub count-put :
      (j k : String) (v : V) (d : Dict V)
      → count j (keys (put k v d)) ≡ (
          if has k d
          then count j (keys d)
          else if k == j
          then count j (keys d) + 1
          else count j (keys d))
  unfolding get put
  count-put j k v [] = ground arith
  count-put j k v ((i, w) ∷ d) =
      ground (arith, eq_iff k j, eq_iff i k, eq_iff i j, count-put j k v d)

  pub count-remove :
      (j k : String) (d : Dict V)
      → count j (keys (remove k d)) ≡ (if k == j then 0 else count j (keys d))
  unfolding remove
  count-remove j k [] = ground arith
  count-remove j k ((i, w) ∷ d) =
      ground (arith, eq_iff k j, eq_iff i k, eq_iff i j, count-remove j k d)

  pub put-IsNodup :
      (k : String) (v : V) (d : Dict V) → IsNodup (keys d) → IsNodup (keys (put k v d))
  put-IsNodup k v d h = λ j.
      ground (arith, count-put j k v d, h j, count_absent j (keys d), contains-keys j d, eq_iff k j)

  pub remove-IsNodup : (k : String) (d : Dict V) → IsNodup (keys d) → IsNodup (keys (remove k d))
  remove-IsNodup k d h = λ j. ground (arith, count-remove j k d, h j)

pub ruleset dict_laws = (get-put, get-remove, get-nil)
