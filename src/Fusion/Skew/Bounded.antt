-- ===== src/Fusion/Skew/Bounded.antt =====
-- fusion.py, class ClockSkew: the clamping of an offset, and the samples of a receiver.
use insteonrf.Common.{
  ℕ, ◌-◌, true, none, some, List, [], ◌∷◌, ◌++◌, length, list_beq, ◌≡◌, ◌≤◌, refl, ap, sym, ◌∙◌,
  arith, Bool-cases, inl, inr, length-append, length-drop, list_eq, list_beq_iff,
}
use insteonrf.Common.Dict.{Dict, get, put, get-put}
use insteonrf.Fusion.Skew.{Number, least, clamp, push, or_empty}

module _ (N : Number) where
  abbrev pub Samples : Type 0
  Samples = Dict (List ℕ) (List N.Value)

  abbrev pub Offsets : Type 0
  Offsets = Dict (List ℕ) N.Value

  self_leq : (a : N.Value) → N.leq a a ≡ true
  self_leq a = elim (Bool-cases (N.leq a a)) [ inl below ↦ below | inr above ↦ N.total a a above ]

  -- within the limit on both sides
  abbrev pub IsWithin : N.Value → N.Value → Type 0
  IsWithin max_abs v = (N.leq (N.negated max_abs) v ≡ true) × (N.leq v max_abs ≡ true)

  least_lem : (m v : N.Value) → N.leq (least N m v) m ≡ true
  least_lem m v = elim (Bool-cases (N.leq m v)) [
    | inl over ↦ rw over (self_leq m)
    | inr under ↦ rw under (N.total m v under)
  ]

  pub clamp-IsWithin : (m v : N.Value) → N.leq (N.negated m) m ≡ true → IsWithin m (clamp N m v)
  unfolding clamp
  clamp-IsWithin m v ordered =
      let y = least N m v in
      elim (Bool-cases (N.leq y (N.negated m))) [
        | inl low ↦ rw low (self_leq (N.negated m), ordered)
        | inr high ↦ rw high (N.total y (N.negated m) high, least_lem m v)
      ]

  length-push :
      (keep : ℕ) (q : List N.Value) (x : N.Value)
      → (length (push N keep q x) ≤ keep) × (length q ≤ keep → length q ≤ length (push N keep q x))
  unfolding push
  length-push keep q x =
      let r = q ++ (x ∷ []) in
      let d = length-drop (length r - keep) r in
      let a = length-append q (x ∷ []) in (omega (arith, d), λ h. omega (arith, d, a, h))

  -- every receiver's samples are at most so many
  abbrev pub IsShort : ℕ → Samples → Type 0
  IsShort keep samples = (r : List ℕ) (q : List N.Value) → get r samples ≡ some q → length q ≤ keep

  -- a receiver has so many samples
  abbrev pub HasSamples : ℕ → Samples → List ℕ → Type 0
  HasSamples least samples r = (q : List N.Value) × (get r samples ≡ some q) × (least ≤ length q)

  pub some_value : {A : Type 0} {a b : A} → some a ≡ some b → a ≡ b
  some_value {A} {a} e = ap (λ o. elim o [ none ↦ a | some x ↦ x ]) e

  pub put-IsShort :
      (keep : ℕ) (k : List ℕ) (p : List N.Value) (x : N.Value) (samples : Samples)
      → IsShort keep samples
      → IsShort keep (put k (push N keep p x) samples)
  put-IsShort keep k p x samples short r q e =
      let step = sym (get-put k r (push N keep p x) samples) ∙ e in
      elim (Bool-cases (list_beq k r)) [
        | inl same ↦
            let f : some (push N keep p x) ≡ some q = sym (rw same refl) ∙ step in
            omega (arith, ap length (some_value f), (length-push keep p x).0)
        | inr other ↦ short r q (sym (rw other refl) ∙ step)
      ]

  pub put-HasSamples :
      (keep least : ℕ) (k r : List ℕ) (x : N.Value) (samples : Samples)
      → IsShort keep samples
      → HasSamples least samples r
      → HasSamples least (put k (push N keep (or_empty N (get k samples)) x) samples) r
  put-HasSamples keep least k r x samples short (q, e, enough) =
      let new = push N keep (or_empty N (get k samples)) x in
      elim (Bool-cases (list_beq k r)) [
        | inl same ↦
            let old : or_empty N (get k samples) ≡ q =
              ap (λ j. or_empty N (get j samples)) ((list_beq_iff k r).0 same)
              ∙ ap (or_empty N) e in
            (
              new,
              get-put k r new samples ∙ rw same refl,
              omega (
                arith,
                enough,
                ap length old,
                (length-push keep (or_empty N (get k samples)) x).1
                    (omega (arith, short r q e, ap length old)),
              ),
            )
        | inr other ↦ (q, get-put k r new samples ∙ rw other e, enough)
      ]
