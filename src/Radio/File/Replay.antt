-- ===== src/Radio/File/Replay.antt =====
-- radio/file.py: what a sequence of calls of `receive_bits` brings.
use insteonrf.Common.{
  ℕ, zero, suc, ltb, true, false, ◌||◌, Option, none, some, List, [], ◌∷◌, length, ◌≡◌, refl, ap,
  ◌∙◌, arith,
}
use insteonrf.Manchester.{Bits}
use insteonrf.Radio.File.{after_next, FileRadio, new_radio, next_line, left_of, receive_bits}

-- a result before the others
abbrev pub joined :
    Option Bits → Option (FileRadio × List (Option Bits)) → Option (FileRadio × List (Option Bits))
joined o none = none
joined o (some (r, os)) = some (r, o ∷ os)

-- the results of so many calls, and the radio after them; none where one does not return
unfoldable pub receive_times : ℕ → FileRadio → Option (FileRadio × List (Option Bits))
receive_times zero r = some (r, [])
receive_times (suc n) r = elim (receive_bits r) [
  | none ↦ none
  | some got ↦ joined got.1 (receive_times n got.0)
]

-- so many results of a radio that plays the lines once
unfoldable pub once : ℕ → List Bits → List (Option Bits)
once zero rest = []
once (suc n) [] = none ∷ once n []
once (suc n) (b ∷ rest) = some b ∷ once n rest

-- and of one that plays some lines, and from then on other lines again and again
unfoldable pub again : ℕ → List Bits → List Bits → List (Option Bits)
again zero lines rest = []
again (suc n) lines (b ∷ rest) = some b ∷ again n lines rest
again (suc n) [] [] = []
again (suc n) (b ∷ lines) [] = some b ∷ again n (b ∷ lines) lines

receive_at :
    (r : FileRadio) (rest : List Bits)
    → left_of r ≡ rest
    → receive_bits r ≡ after_next r (next_line r.lines r.loop rest)
unfolding receive_bits
receive_at r rest e = ap (λ t. after_next r (next_line r.lines r.loop t)) e

receive_more :
    (n : ℕ) (r q0 q : FileRadio) (o : Option Bits) (os : List (Option Bits))
    → receive_bits r ≡ some (q0, o)
    → receive_times n q0 ≡ some (q, os)
    → receive_times (suc n) r ≡ some (q, o ∷ os)
unfolding receive_times
receive_more n r q0 q o os first more =
    ap (λ t. elim t [ none ↦ none | some got ↦ joined got.1 (receive_times n got.0) ]) first
    ∙ ap (joined o) more

once_lem :
    (n : ℕ) (r : FileRadio) (rest : List Bits)
    → r.loop ≡ false
    → left_of r ≡ rest
    → (q : FileRadio) × (receive_times n r ≡ some (q, once n rest))
      × (q.exhausted ≡ (r.exhausted || ltb (length rest) n))
unfolding once next_line
once_lem zero r rest plain e = (r, unfold receive_times in refl, ground arith)
once_lem (suc n) r [] plain e =
    let q0 = record r { iterator = some []; exhausted = true } in
    let (q, run, done) = once_lem n q0 [] plain refl in
    let first : receive_bits r ≡ some (q0, none) = receive_at r [] e ∙ rw plain refl in
    (q, receive_more n r q0 q none (once n []) first run, done ∙ ground arith)
once_lem (suc n) r (b ∷ rest) plain e =
    let q0 = record r { iterator = some rest } in
    let (q, run, done) = once_lem n q0 rest plain refl in
    (
      q,
      receive_more n r q0 q (some b) (once n rest) (receive_at r (b ∷ rest) e) run,
      done ∙ ground arith,
    )

again_lem :
    (n : ℕ) (r : FileRadio) (c : Bits) (lines rest : List Bits)
    → r.loop ≡ true
    → r.lines ≡ c ∷ lines
    → left_of r ≡ rest
    → (q : FileRadio) × (receive_times n r ≡ some (q, again n (c ∷ lines) rest))
      × (q.exhausted ≡ r.exhausted)
unfolding again next_line
again_lem zero r c lines rest looped all e = (r, unfold receive_times in refl, refl)
again_lem (suc n) r c lines [] looped all e =
    let q0 = record r { iterator = some lines } in
    let (q, run, done) = again_lem n q0 c lines lines looped all refl in
    let first : receive_bits r ≡ some (q0, some c) = receive_at r [] e ∙ rw (looped, all) refl in
    (q, receive_more n r q0 q (some c) (again n (c ∷ lines) lines) first run, done)
again_lem (suc n) r c lines (b ∷ rest) looped all e =
    let q0 = record r { iterator = some rest } in
    let (q, run, done) = again_lem n q0 c lines rest looped all refl in
    (
      q,
      receive_more n r q0 q (some b) (again n (c ∷ lines) rest) (receive_at r (b ∷ rest) e) run,
      done,
    )

-- A radio that plays its lines once returns from every call: with the lines in their order and then
-- with nothing, and it says that it is exhausted once more calls were made than there are lines. One
-- that plays them in a loop brings them in their order, again and again, and is never exhausted,
-- if there is a line; without any, the first call does not return.
pub receive_times_lem :
    (n : ℕ) (lines : List Bits) (c : Bits)
    → ((q : FileRadio) × (receive_times n (new_radio lines false) ≡ some (q, once n lines))
        × (q.exhausted ≡ ltb (length lines) n))
      × ((q : FileRadio) × (receive_times n (new_radio (c ∷ lines) true)
            ≡ some (q, again n (c ∷ lines) (c ∷ lines)))
          × (q.exhausted ≡ false))
      × (receive_times (suc n) (new_radio [] true) ≡ none)
unfolding receive_times receive_bits next_line
receive_times_lem n lines c = (
  once_lem n (new_radio lines false) lines refl refl,
  again_lem n (new_radio (c ∷ lines) true) c lines (c ∷ lines) refl refl refl,
  refl,
)
