-- ===== src/Common/Totals.antt =====
-- Totals over the values of a dictionary and over lists, for counting arguments.
use insteonrf.Common.Tests.{Eq, Bool-cases}
use insteonrf.Common.Dict.{Dict, get, put, erase, IsDict, Fresh}
use Prim.Native.Nat.{ℕ, ◌+◌}
use mathlib.Core.List.{List, [], ◌∷◌, ◌++◌}
use mathlib.Core.Logic.{inl, inr}
use mathlib.Core.Option.{Option, none, some}
use mathlib.Core.Path.{◌≡◌, refl}
use native.Mathlib.Omega.{arith}

module _ {V : Type 0} (weigh : V → ℕ) where
  unfoldable pub list_total : List V → ℕ
  list_total [] = 0
  list_total (v ∷ vs) = weigh v + list_total vs

  abbrev pub weigh_or : Option V → ℕ
  weigh_or none = 0
  weigh_or (some v) = weigh v

  pub list_total-append : (xs ys : List V) → list_total (xs ++ ys) ≡ list_total xs + list_total ys
  unfolding list_total
  list_total-append [] ys = omega arith
  list_total-append (x ∷ xs) ys = omega (arith, list_total-append xs ys)

module _ {K V : Type 0} ⦃e : Eq K⦄ (weigh : V → ℕ) where
  unfoldable pub total : Dict K V → ℕ
  total [] = 0
  total ((k, v) ∷ d) = weigh v + total d

  pub total-put :
      (k : K) (v : V) (d : Dict K V)
      → total (put k v d) + weigh_or weigh (get k d) ≡ total d + weigh v
  unfolding total put get
  total-put k v [] = omega arith
  total-put k v ((j, w) ∷ d) = ground (arith, total-put k v d)

  pub total-erase : (k : K) (d : Dict K V) → total (erase k d) + weigh_or weigh (get k d) ≡ total d
  unfolding total erase get
  total-erase k [] = refl
  total-erase k ((j, w) ∷ d) = ground (arith, total-erase k d)

module _ {K V : Type 0} ⦃e : Eq K⦄ where
  erase-Fresh : (j k : K) (d : Dict K V) → Fresh j d → Fresh j (erase k d)
  unfolding erase get
  erase-Fresh j k [] h = refl
  erase-Fresh j k ((i, w) ∷ d) h = ground (arith, erase-Fresh j k d)

  pub erase-IsDict : (k : K) (d : Dict K V) → IsDict d → IsDict (erase k d)
  unfolding erase IsDict
  erase-IsDict k [] h = tt
  erase-IsDict k ((j, w) ∷ d) h = elim (Bool-cases (e.beq j k)) [
    | inl same ↦ rw same h.1
    | inr other ↦ rw other (erase-Fresh j k d h.0, erase-IsDict k d h.1)
  ]

  pub get-erase_self : (k : K) (d : Dict K V) → IsDict d → get k (erase k d) ≡ none
  unfolding erase get IsDict
  get-erase_self k [] h = refl
  get-erase_self k ((j, w) ∷ d) h = ground (arith, e.beq_iff j k, h.0, h.1, get-erase_self k d)
