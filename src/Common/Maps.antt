-- ===== src/Common/Maps.antt =====
-- A `std::map` as a list of pairs, by what `find` gives after a change. No key stands in it twice.
use Prim.Native.String.{String}
use mathlib.Core.Path.{◌≡◌, refl, ap, subst}
use mathlib.Core.Logic.{◌≢◌, inl, inr}
use mathlib.Core.Bool.{true, false}
use mathlib.Core.Option.{Option, none, some}
use mathlib.Core.List.{List, [], ◌∷◌}
use text.Mathlib.Text.{◌==◌ as str_eq}
use text.Mathlib.TextEquality.{eq_iff}
use simutgw_src.Common.Tests.{Bool-cases, if◌then◌else◌}

abbrev pub Map : Type 0 → Type 0
Map V = List (String × V)

module _ {V : Type 0} where
  abbrev pub find : String → Map V → Option V
  find k [] = none
  find k ((j, v) ∷ m) = if str_eq k j then some v else find k m

  -- A change of the value of a key through an iterator, or the insertion of a key that is not there.
  abbrev pub put : String → V → Map V → Map V
  put k v [] = (k, v) ∷ []
  put k v ((j, w) ∷ m) = if str_eq k j then (j, v) ∷ m else (j, w) ∷ put k v m

str_eq_refl : (k : String) → str_eq k k ≡ true
str_eq_refl k = (eq_iff k k).1 refl

str_eq-differ : (j k : String) → j ≢ k → str_eq j k ≡ false
str_eq-differ j k h = elim (Bool-cases (str_eq j k)) [
  | inl e ↦ absurd (h ((eq_iff j k).0 e))
  | inr e ↦ e
]

module _ {V : Type 0} where
  pub find-put : (k : String) (v : V) (m : Map V) → find k (put k v m) ≡ some v
  find-put k v [] = rw (str_eq_refl k) refl
  find-put k v ((j, w) ∷ m) = elim (Bool-cases (str_eq k j)) [
    | inl e ↦ rw e (rw e refl)
    | inr e ↦ rw e (rw e (find-put k v m))
  ]

  -- A change under one key is not seen under another.
  pub find-put-other : (j k : String) (v : V) (m : Map V) → j ≢ k → find j (put k v m) ≡ find j m
  find-put-other j k v [] h = rw (str_eq-differ j k h) refl
  find-put-other j k v ((i, w) ∷ m) h = elim (Bool-cases (str_eq k i)) [
    | inl e ↦
        let apart : str_eq j i ≡ false =
          subst (λ x. str_eq j x ≡ false) ((eq_iff k i).0 e) (str_eq-differ j k h) in
        rw e (rw apart refl)
    | inr e ↦ elim (Bool-cases (str_eq j i)) [
      | inl d ↦ rw e (rw d refl)
      | inr d ↦ rw e (rw d (find-put-other j k v m h))
    ]
  ]

  pub put-put : (k : String) (v w : V) (m : Map V) → put k v (put k w m) ≡ put k v m
  put-put k v w [] = rw (str_eq_refl k) refl
  put-put k v w ((j, u) ∷ m) = elim (Bool-cases (str_eq k j)) [
    | inl e ↦ rw e (rw e refl)
    | inr e ↦ rw e (rw e (ap (λ l. (j, u) ∷ l) (put-put k v w m)))
  ]
