-- ===== src/Fusion/Skew/Learned.antt =====
-- fusion.py, class ClockSkew: what holds after any messages.
use insteonrf.Common.{
  Option-cases, ℕ, ltb, leb, true, Option, none, some, List, [], ◌∷◌, length, list_beq, ◌≡◌, ◌≤◌,
  refl, ap, sym, ◌∙◌, arith, Bool-cases, inl, inr, ◌⊎◌, leb→le, list_eq, list_beq_iff,
}
use mathlib.Core.Path.{subst}
use insteonrf.Common.Dict.{get, put, get-put, IsDict, put-IsDict}
use insteonrf.Fusion.Skew.{
  median, corrected_times, values_of, Number, ClockSkew, new_skew, clamp, push, or_empty,
  add_samples, ready, set_offsets, offset, learn,
}
use insteonrf.Fusion.Skew.Bounded.{
  Samples, Offsets, IsShort, HasSamples, IsWithin, put-IsShort, put-HasSamples, some_value,
  clamp-IsWithin,
}

module _ (N : Number) where
  -- what every state of the samples is like, and what a receiver in them keeps
  add_samples_lem :
      (keep : ℕ) (consensus : N.Value) (raw : Offsets N) (samples : Samples N)
      → IsDict samples
      → IsShort N keep samples
      → let out = add_samples N keep consensus raw samples in
        IsDict out
        × IsShort N keep out
        × ((least : ℕ) (r : List ℕ) → HasSamples N least samples r → HasSamples N least out r)
  unfolding add_samples
  add_samples_lem keep consensus [] samples dict short = (dict, short, λ least r h. h)
  add_samples_lem keep consensus ((k, t) ∷ raw) samples dict short =
      let x = N.minus t consensus in
      let p = or_empty N (get k samples) in
      let next = put k (push N keep p x) samples in
      let rest =
        add_samples_lem keep consensus raw next (put-IsDict k (push N keep p x) samples dict)
          (put-IsShort N keep k p x samples short) in
      (
        rest.0,
        rest.1,
        λ least r h. rest.2 least r (put-HasSamples N keep least k r x samples short h),
      )

  -- a receiver is only ready with enough samples
  ready-HasSamples :
      (least : ℕ) (samples : Samples N) (r : List ℕ) (v : N.Value)
      → IsDict samples
      → get r (ready N least samples) ≡ some v
      → HasSamples N least samples r
  unfolding ready get IsDict
  ready-HasSamples least [] r v dict = λ e. absurd cc
  ready-HasSamples least ((k, q) ∷ samples) r v dict = elim (Bool-cases (list_beq k r)) [
    | inl same ↦ elim (Bool-cases (leb least (length q))) [
      | inl enough ↦ λ e. (q, rw same refl, leb→le least (length q) enough)
      | inr few ↦
          rw (few, same)
            (λ e. absurd (
              let h = ready-HasSamples least samples r v dict.1 e in
              let gone : get r samples ≡ none =
                ap (λ j. get j samples) (sym ((list_beq_iff k r).0 same)) ∙ dict.0 in
              none_some (sym gone ∙ h.1)))
    ]
    | inr other ↦ elim (Bool-cases (leb least (length q))) [
      | inl enough ↦ rw (enough, other) (ready-HasSamples least samples r v dict.1)
      | inr few ↦ rw (few, other) (ready-HasSamples least samples r v dict.1)
    ]
  ]
    where
      none_some : {A : Type 0} {a : A} → none ≡ some a → ⊥
      none_some e = absurd cc

  -- where an offset comes from, and that it is clamped or was there
  set_offsets_lem :
      (max_abs centre : N.Value) (found offsets : Offsets N) (r : List ℕ) (v : N.Value)
      → N.leq (N.negated max_abs) max_abs ≡ true
      → get r (set_offsets N max_abs centre found offsets) ≡ some v
      → (get r offsets ≡ some v) ⊎ (IsWithin N max_abs v × ((u : N.Value) × (get r found ≡ some u)))
  unfolding set_offsets get
  set_offsets_lem max_abs centre [] offsets r v ordered e = inl e
  set_offsets_lem max_abs centre ((k, t) ∷ found) offsets r v ordered e =
      let c = clamp N max_abs (N.minus t centre) in
      elim (set_offsets_lem max_abs centre found (put k c offsets) r v ordered e) [
        | inl old ↦
            let step = sym (get-put k r c offsets) ∙ old in
            elim (Bool-cases (list_beq k r)) [
              | inl same ↦
                  let f : some c ≡ some v = sym (rw same refl) ∙ step in
                  inr (
                    subst (IsWithin N max_abs) (some_value N f)
                        (clamp-IsWithin N max_abs (N.minus t centre) ordered),
                    (t, rw same refl),
                  )
              | inr other ↦ inl (sym (rw other refl) ∙ step)
            ]
        | inr (within, (u, g)) ↦ elim (Bool-cases (list_beq k r)) [
          | inl same ↦ inr (within, (t, rw same refl))
          | inr other ↦ inr (within, (u, rw other g))
        ]
      ]

  -- what holds of a state
  pub record IsSound (s : ClockSkew N) : Type 0 where
    pub dict : IsDict s.samples
    pub short : IsShort N s.keep s.samples
    pub bounded : (r : List ℕ) (v : N.Value) → get r s.offsets ≡ some v → IsWithin N s.max_abs v
    pub backed :
        (r : List ℕ) (v : N.Value)
        → get r s.offsets ≡ some v
        → HasSamples N s.min_samples s.samples r

  learn-IsSound :
      (s : ClockSkew N) (raw : Offsets N)
      → N.leq (N.negated s.max_abs) s.max_abs ≡ true
      → IsSound s
      → IsSound (learn N s raw)
  unfolding learn
  learn-IsSound s raw ordered h = elim (Bool-cases (ltb (length raw) 2)) [
    | inl alone ↦ rw alone h
    | inr shared ↦ rw shared (
        let consensus = median N (corrected_times N s raw) in
        let samples = add_samples N s.keep consensus raw s.samples in
        let a = add_samples_lem s.keep consensus raw s.samples h.dict h.short in
        let found = ready N s.min_samples samples in
        record {
          dict = a.0;
          short = a.1;
          bounded = λ r v e.
              elim (set_offsets_lem s.max_abs (median N (values_of N found)) found s.offsets r v
                ordered e) [ inl old ↦ h.bounded r v old | inr (within, (u, g)) ↦ within ];
          backed = λ r v e.
              elim (set_offsets_lem s.max_abs (median N (values_of N found)) found s.offsets r v
                ordered e) [
                  | inl old ↦ a.2 s.min_samples r (h.backed r v old)
                  | inr (within, (u, g)) ↦ ready-HasSamples s.min_samples samples r u a.0 g
                ];
        })
  ]

  -- messages, each with the times of its receivers
  unfoldable pub learn_all : ClockSkew N → List (Offsets N) → ClockSkew N
  learn_all s [] = s
  learn_all s (raw ∷ messages) = learn_all (learn N s raw) messages

  limits_kept :
      (s : ClockSkew N) (raw : Offsets N)
      → ((learn N s raw).max_abs ≡ s.max_abs)
        × ((learn N s raw).keep ≡ s.keep)
        × ((learn N s raw).min_samples ≡ s.min_samples)
  unfolding learn
  limits_kept s raw = elim (Bool-cases (ltb (length raw) 2)) [
    | inl alone ↦ rw alone (refl, refl, refl)
    | inr shared ↦ rw shared (refl, refl, refl)
  ]

  -- sound, with the limits that it was made with
  abbrev IsSoundWithin : ℕ → ℕ → N.Value → ClockSkew N → Type 0
  IsSoundWithin min_samples keep max_abs s =
      IsSound s × (s.max_abs ≡ max_abs) × (s.keep ≡ keep) × (s.min_samples ≡ min_samples)

  learn_all-IsSound :
      (min_samples keep : ℕ) (max_abs : N.Value) (s : ClockSkew N) (messages : List (Offsets N))
      → N.leq (N.negated max_abs) max_abs ≡ true
      → IsSoundWithin min_samples keep max_abs s
      → IsSoundWithin min_samples keep max_abs (learn_all s messages)
  unfolding learn_all
  learn_all-IsSound min_samples keep max_abs s [] ordered h = h
  learn_all-IsSound min_samples keep max_abs s (raw ∷ messages) ordered (h, m, k, l) =
      let ordered_s = subst (λ t. N.leq (N.negated t) t ≡ true) (sym m) ordered in
      let kept = limits_kept s raw in
      learn_all-IsSound min_samples keep max_abs (learn N s raw) messages ordered
        (learn-IsSound s raw ordered_s h, kept.0 ∙ m, kept.1 ∙ k, kept.2 ∙ l)

  new-IsSound :
      (min_samples keep : ℕ) (max_abs : N.Value) → IsSound (new_skew N min_samples keep max_abs)
  unfolding get IsDict
  new-IsSound min_samples keep max_abs = record {
    dict = tt;
    short = λ r q e. absurd cc;
    bounded = λ r v e. absurd cc;
    backed = λ r v e. absurd cc;
  }

  offset_at :
      (s : ClockSkew N) (r : List ℕ) (o : Option N.Value)
      → get r s.offsets ≡ o
      → offset N s r ≡ elim o [ none ↦ N.nought | some v ↦ v ]
  unfolding offset
  offset_at s r o e = ap (λ t. elim t [ none ↦ N.nought | some v ↦ v ]) e

  -- Whatever times of shared messages it has learnt, in numbers with a total order and a limit that
  -- is not below its negation: a receiver has at most `keep` samples; its offset is nought, or it
  -- lies within the limit on both sides and the receiver has at least `min_samples` samples.
  pub learn_all-limits :
      (min_samples keep : ℕ) (max_abs : N.Value) (messages : List (Offsets N)) (r : List ℕ)
      → N.leq (N.negated max_abs) max_abs ≡ true
      → let s = learn_all (new_skew N min_samples keep max_abs) messages in
        ((q : List N.Value) → get r s.samples ≡ some q → length q ≤ keep)
        × ((offset N s r ≡ N.nought)
            ⊎ (IsWithin N max_abs (offset N s r) × HasSamples N min_samples s.samples r))
  learn_all-limits min_samples keep max_abs messages r ordered =
      let s = learn_all (new_skew N min_samples keep max_abs) messages in
      let (h, m, k, l) =
        learn_all-IsSound min_samples keep max_abs (new_skew N min_samples keep max_abs) messages
          ordered (new-IsSound min_samples keep max_abs, refl, refl, refl) in
      (
        λ q e. omega (arith, h.short r q e, k),
        elim (Option-cases (get r s.offsets)) [
          | inl missing ↦ inl (offset_at s r none missing)
          | inr (v, e) ↦ inr (
            subst (λ t. IsWithin N t (offset N s r)) m
                (subst (IsWithin N s.max_abs) (sym (offset_at s r (some v) e)) (h.bounded r v e)),
            subst (λ t. HasSamples N t s.samples r) l (h.backed r v e),
          )
        ],
      )
