-- ===== src/Fusion/Skew.antt =====
-- insteonrf/fusion.py, class ClockSkew, over any numbers with the operations that it uses; the source
-- has floats. `median` is that of Python's statistics. `Fusion` here is one without such a correction.
pub mod Bounded
pub mod Learned
use insteonrf.Common.{
  ℕ, zero, suc, ◌+◌, ◌-◌, ◌*◌, ◌/◌, ◌%◌, ◌^◌, ◌==◌, ltb, leb, bit_and, bit_or, Bool, true, false,
  not, ◌&&◌, ◌||◌, if◌then◌else◌, Option, none, some, List, [], ◌∷◌, ◌++◌, length, take, drop, map,
  list_beq, Result, ok, raise, value_error, ◌≡◌, list_eq,
}
use insteonrf.Common.Dict.{Dict, get, put}

-- the operations and the one law of their order that is needed
pub record Number : Type 1 where
  pub Value : Type 0
  pub nought : Value
  pub minus : Value → Value → Value
  pub negated : Value → Value
  pub mean : Value → Value → Value
  pub leq : Value → Value → Bool
  pub total : (a b : Value) → leq a b ≡ false → leq b a ≡ true

module _ (N : Number) where
  -- `min(a, b)` and `max(a, b)`, which prefer `a`
  abbrev pub least : N.Value → N.Value → N.Value
  least a b = if N.leq a b then a else b

  abbrev pub greatest : N.Value → N.Value → N.Value
  greatest a b = if N.leq b a then a else b

  -- `sorted`
  unfoldable pub insert : N.Value → List N.Value → List N.Value
  insert x [] = x ∷ []
  insert x (y ∷ ys) = let rest = insert x ys in if N.leq x y then x ∷ y ∷ ys else y ∷ rest

  unfoldable pub sorted : List N.Value → List N.Value
  sorted [] = []
  sorted (x ∷ xs) = insert x (sorted xs)

  unfoldable pub at_index : ℕ → List N.Value → N.Value
  at_index i [] = N.nought
  at_index zero (x ∷ xs) = x
  at_index (suc i) (x ∷ xs) = at_index i xs

  -- `median`, of one number at least
  unfoldable pub median : List N.Value → N.Value
  median xs =
      let ys = sorted xs in
      let n = length ys in
      if n % 2 == 1
      then at_index (n / 2) ys
      else N.mean (at_index (n / 2 - 1) ys) (at_index (n / 2) ys)

  pub record ClockSkew : Type 0 where
    pub min_samples : ℕ
    pub keep : ℕ
    pub max_abs : N.Value
    pub samples : Dict (List ℕ) (List N.Value)
    pub offsets : Dict (List ℕ) N.Value

  abbrev pub new_skew : ℕ → ℕ → N.Value → ClockSkew
  new_skew min_samples keep max_abs = record {
    min_samples = min_samples;
    keep = keep;
    max_abs = max_abs;
    samples = [];
    offsets = [];
  }

  -- `offset` and `correct`
  unfoldable pub offset : ClockSkew → List ℕ → N.Value
  offset s receiver = elim (get receiver s.offsets) [ none ↦ N.nought | some v ↦ v ]

  unfoldable pub correct : ClockSkew → List ℕ → N.Value → N.Value
  correct s receiver when = N.minus when (offset s receiver)

  -- `q.append(x)`, for a deque of at most `keep`
  unfoldable pub push : ℕ → List N.Value → N.Value → List N.Value
  push keep q x = let r = q ++ (x ∷ []) in drop (length r - keep) r

  abbrev pub or_empty : Option (List N.Value) → List N.Value
  or_empty none = []
  or_empty (some q) = q

  -- `[t - self.offset(r) for r, t in raw.items()]`
  unfoldable pub corrected_times : ClockSkew → Dict (List ℕ) N.Value → List N.Value
  corrected_times s [] = []
  corrected_times s ((r, t) ∷ raw) = correct s r t ∷ corrected_times s raw

  -- the loop that adds the samples
  unfoldable pub add_samples :
      ℕ
      → N.Value
      → Dict (List ℕ) N.Value
      → Dict (List ℕ) (List N.Value)
      → Dict (List ℕ) (List N.Value)
  add_samples keep consensus [] samples = samples
  add_samples keep consensus ((r, t) ∷ raw) samples =
      add_samples keep consensus raw
        (put r (push keep (or_empty (get r samples)) (N.minus t consensus)) samples)

  -- `ready`
  unfoldable pub ready : ℕ → Dict (List ℕ) (List N.Value) → Dict (List ℕ) N.Value
  ready min_samples [] = []
  ready min_samples ((r, q) ∷ samples) =
      let rest = ready min_samples samples in
      if leb min_samples (length q) then (r, median q) ∷ rest else rest

  unfoldable pub values_of : Dict (List ℕ) N.Value → List N.Value
  values_of [] = []
  values_of ((r, v) ∷ d) = v ∷ values_of d

  -- `max(-self.max_abs_s, min(self.max_abs_s, v))`
  unfoldable pub clamp : N.Value → N.Value → N.Value
  clamp max_abs v = greatest (N.negated max_abs) (least max_abs v)

  -- the loop that sets the offsets
  unfoldable pub set_offsets :
      N.Value → N.Value → Dict (List ℕ) N.Value → Dict (List ℕ) N.Value → Dict (List ℕ) N.Value
  set_offsets max_abs centre [] offsets = offsets
  set_offsets max_abs centre ((r, v) ∷ found) offsets =
      set_offsets max_abs centre found (put r (clamp max_abs (N.minus v centre)) offsets)

  -- the end of `learn`; without any that is ready the offsets stay
  abbrev pub recentred : ClockSkew → Dict (List ℕ) N.Value → ClockSkew
  recentred s found = record s {
    offsets = set_offsets s.max_abs (median (values_of found)) found s.offsets;
  }

  -- `learn`
  unfoldable pub learn : ClockSkew → Dict (List ℕ) N.Value → ClockSkew
  learn s raw =
      let consensus = median (corrected_times s raw) in
      let more = record s { samples = add_samples s.keep consensus raw s.samples } in
      if ltb (length raw) 2 then s else recentred more (ready s.min_samples more.samples)
