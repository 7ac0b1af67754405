-- ===== src/Json.antt =====
-- The values of a dynamic program: what `json.loads` returns and what a `Dict[str, Any]` holds.
-- An object is a list of fields in the order of insertion, as a Python `dict`.
use agents_protocol.Prelude.{ℕ, String, Bool, true, false, Option, none, some, ◌==◌, if◌then◌else◌}

mutual
  pub data Value : Type 0 where
    null : Value
    bool : Bool → Value
    num : ℕ → Value
    str : String → Value
    obj : Fields → Value
    arr : Items → Value

  pub data Fields : Type 0 where
    no_fields : Fields
    field : String → Value → Fields → Fields

  pub data Items : Type 0 where
    no_items : Items
    item : Value → Items → Items

-- content.get(k)
unfoldable pub find : String → Fields → Option Value
find k no_fields = none
find k (field j v fs) = let rest = find k fs in if j == k then some v else rest

-- content.get(k, d)
unfoldable pub find_or : String → Value → Fields → Value
unfolding find
find_or k d fs = elim (find k fs) [ none ↦ d | some v ↦ v ]

-- `x is not None`
abbrev pub is_not_null : Value → Bool
is_not_null null = false
is_not_null _ = true
