-- ===== src/Common/Dict.antt =====
-- Python's `dict`: an association list in insertion order, over keys with a test of equality.
-- `d[k] = v` keeps the place of a key that is there and appends one that is not.
use insteonrf.Common.Tests.{Eq, Bool-cases, if◌then◌else◌}
use mathlib.Core.Bool.{Bool, true, false}
use mathlib.Core.List.{List, [], ◌∷◌}
use mathlib.Core.Logic.{inl, inr}
use mathlib.Core.Option.{Option, none, some}
use mathlib.Core.Path.{◌≡◌, refl}
use native.Mathlib.Omega.{arith}

abbrev pub Dict : Type 0 → Type 0 → Type 0
Dict K V = List (K × V)

pub beq_same : {K : Type 0} ⦃e : Eq K⦄ (k : K) → e.beq k k ≡ true
beq_same ⦃e⦄ k = (e.beq_iff k k).1 refl

module _ {K V : Type 0} ⦃e : Eq K⦄ where
  -- d.get(k)
  unfoldable pub get : K → Dict K V → Option V
  get k [] = none
  get k ((j, v) ∷ d) = if e.beq j k then some v else get k d

  -- d[k] = v
  unfoldable pub put : K → V → Dict K V → Dict K V
  put k v [] = (k, v) ∷ []
  put k v ((j, w) ∷ d) = if e.beq j k then (j, v) ∷ d else (j, w) ∷ put k v d

  -- del d[k]
  unfoldable pub erase : K → Dict K V → Dict K V
  erase k [] = []
  erase k ((j, v) ∷ d) = if e.beq j k then d else (j, v) ∷ erase k d

  -- for k, v in list(d.items()): if drop(v): del d[k]
  unfoldable pub purge : (V → Bool) → Dict K V → Dict K V
  purge drop [] = []
  purge drop ((j, v) ∷ d) = if drop v then purge drop d else (j, v) ∷ purge drop d

  -- the keys are distinct
  abbrev pub Fresh : K → Dict K V → Type 0
  Fresh k d = get k d ≡ none

  unfoldable pub IsDict : Dict K V → Type 0
  IsDict [] = Unit
  IsDict ((k, v) ∷ d) = Fresh k d × IsDict d

  pub get-put :
      (k j : K) (v : V) (d : Dict K V) → get j (put k v d) ≡ (if e.beq k j then some v else get j d)
  unfolding get put
  get-put k j v [] = refl
  get-put k j v ((i, w) ∷ d) =
      ground (arith, e.beq_iff i k, e.beq_iff i j, e.beq_iff k j, get-put k j v d)

  pub get-put_self : (k : K) (v : V) (d : Dict K V) → get k (put k v d) ≡ some v
  get-put_self k v d = ground (arith, get-put k k v d, beq_same k)

  put-Fresh : (k j : K) (v : V) (d : Dict K V) → e.beq j k ≡ false → Fresh j d → Fresh j (put k v d)
  put-Fresh k j v d other h = ground (arith, get-put k j v d, e.beq_iff j k, e.beq_iff k j)

  pub put-IsDict : (k : K) (v : V) (d : Dict K V) → IsDict d → IsDict (put k v d)
  unfolding IsDict put
  put-IsDict k v [] h = (unfold get in refl, tt)
  put-IsDict k v ((j, w) ∷ d) h = elim (Bool-cases (e.beq j k)) [
    | inl same ↦ rw same h
    | inr other ↦ rw other (put-Fresh k j v d other h.0, put-IsDict k v d h.1)
  ]

  -- A purge keeps the entries that its test lets through,
  pub get-purge_kept :
      (drop : V → Bool) (k : K) (d : Dict K V) (v : V)
      → get k d ≡ some v
      → drop v ≡ false
      → get k (purge drop d) ≡ some v
  unfolding get purge
  get-purge_kept drop k [] v h kept = cc
  get-purge_kept drop k ((j, w) ∷ d) v h kept = ground (arith, get-purge_kept drop k d v)

  -- and adds none.
  pub get-purge-none :
      (drop : V → Bool) (k : K) (d : Dict K V) → get k d ≡ none → get k (purge drop d) ≡ none
  unfolding get purge
  get-purge-none drop k [] h = refl
  get-purge-none drop k ((j, w) ∷ d) h = ground (arith, get-purge-none drop k d)

  pub get-purge_dropped :
      (drop : V → Bool) (k : K) (d : Dict K V) (v : V)
      → IsDict d
      → get k d ≡ some v
      → drop v ≡ true
      → get k (purge drop d) ≡ none
  unfolding get purge IsDict
  get-purge_dropped drop k [] v h f t = cc
  get-purge_dropped drop k ((j, w) ∷ d) v h f t = ground (
    arith,
    e.beq_iff j k,
    h.0,
    h.1,
    get-purge-none drop j d,
    get-purge-none drop k d,
    get-purge_dropped drop k d v,
  )

  pub purge-IsDict : (drop : V → Bool) (d : Dict K V) → IsDict d → IsDict (purge drop d)
  unfolding IsDict purge
  purge-IsDict drop [] h = tt
  purge-IsDict drop ((j, w) ∷ d) h = elim (Bool-cases (drop w)) [
    | inl gone ↦ rw gone (purge-IsDict drop d h.1)
    | inr kept ↦ rw kept (get-purge-none drop j d h.0, purge-IsDict drop d h.1)
  ]
