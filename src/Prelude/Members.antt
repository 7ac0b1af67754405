-- ===== src/Prelude/Members.antt =====
-- Membership in lists of texts, as Python's `in`, and what it has to do with the other operations.
use Prim.Native.Nat.{ℕ, suc, ◌+◌, ◌≤◌, ◌<◌}
use Prim.Native.String.{String}
use mathlib.Core.Path.{◌≡◌, refl}
use mathlib.Core.Bool.{Bool, true, false}
use mathlib.Core.List.{List, [], ◌∷◌, ◌++◌}
use native.Mathlib.Omega.{arith}
use text.Mathlib.Text.{◌==◌}
use text.Mathlib.TextEquality.{eq_iff}
use agents_protocol.Prelude.Tests.{if◌then◌else◌}
use agents_protocol.Prelude.Lists.{keep}

abbrev pub contains : String → List String → Bool
contains a [] = false
contains a (x ∷ xs) = let rest = contains a xs in if x == a then true else rest

abbrev pub count : String → List String → ℕ
count a [] = 0
count a (x ∷ xs) = let rest = count a xs in if x == a then suc rest else rest

-- No text stands twice in the list.
abbrev pub IsNodup : List String → Type 0
IsNodup xs = (a : String) → count a xs ≤ 1

pub contains-append :
    (a : String) (xs ys : List String)
    → contains a (xs ++ ys) ≡ (if contains a xs then true else contains a ys)
contains-append a [] ys = refl
contains-append a (x ∷ xs) ys = ground (arith, contains-append a xs ys)

pub count-append :
    (a : String) (front back : List String) → count a (front ++ back) ≡ count a front + count a back
count-append a [] back = omega arith
count-append a (x ∷ front) back = ground (arith, count-append a front back)

pub count_absent : (a : String) (xs : List String) → contains a xs ≡ false → count a xs ≡ 0
count_absent a [] h = refl
count_absent a (x ∷ xs) h = ground (arith, count_absent a xs)

pub count_present : (a : String) (xs : List String) → contains a xs ≡ true → 0 < count a xs
count_present a [] h = cc
count_present a (x ∷ xs) h = ground (arith, count_present a xs)

-- What a comprehension with a test keeps of a list, for membership and for counts.
pub contains-keep :
    (p : String → Bool) (a : String) (xs : List String)
    → contains a (keep p xs) ≡ (if p a then contains a xs else false)
contains-keep p a [] = ground arith
contains-keep p a (x ∷ xs) = ground (arith, contains-keep p a xs, eq_iff x a)

pub count-keep :
    (p : String → Bool) (a : String) (xs : List String)
    → count a (keep p xs) ≡ (if p a then count a xs else 0)
count-keep p a [] = ground arith
count-keep p a (x ∷ xs) = ground (arith, count-keep p a xs, eq_iff x a)
