-- ===== src/Radio/Rfcat/Answers.antt =====
-- rfcat.py, class RfcatRadio: calls of which one may raise.
use mathlib.Core.List.{append-nil}
use insteonrf.Common.{◌≡◌, refl, sym, ap, true, false, List, [], ◌∷◌, ◌++◌}
use insteonrf.Radio.Rfcat.{Command, Answer, done, lost, refused, said, left, all_done}

said_free : (a : List Command) → a ≡ said a []
unfolding said
said_free [] = refl
said_free (c ∷ a) = refl

left_free : (a : List Command) → [] ≡ left a []
unfolding left
left_free [] = refl
left_free (c ∷ a) = refl

all_done_free : (a : List Command) → true ≡ all_done a []
unfolding all_done
all_done_free [] = refl
all_done_free (c ∷ a) = refl

pub said_whole : (a : List Command) (ws : List Answer) → all_done a ws ≡ true → said a ws ≡ a
unfolding said all_done
said_whole [] ws h = refl
said_whole (c ∷ a) [] h = refl
said_whole (c ∷ a) (done ∷ ws) h = ap (λ cs. c ∷ cs) (said_whole a ws h)
said_whole (c ∷ a) (lost ∷ ws) h = absurd cc
said_whole (c ∷ a) (refused ∷ ws) h = absurd cc

-- the calls that reach the dongle come first among those that are made
pub said_part :
    (a : List Command) (ws : List Answer) → (rest : List Command) × (a ≡ said a ws ++ rest)
unfolding said
said_part [] ws = ([], refl)
said_part (c ∷ a) [] = ([], ap (λ cs. c ∷ cs) (sym (append-nil a)))
said_part (c ∷ a) (done ∷ ws) = let (rest, e) = said_part a ws in (rest, ap (λ cs. c ∷ cs) e)
said_part (c ∷ a) (lost ∷ ws) = (a, refl)
said_part (c ∷ a) (refused ∷ ws) = (c ∷ a, refl)

-- `a` and then `b`, where all of `a` return
pub through :
    (a b : List Command) (ws : List Answer)
    → all_done a ws ≡ true
    → (said (a ++ b) ws ≡ said a ws ++ said b (left a ws))
      × (left (a ++ b) ws ≡ left b (left a ws))
      × (all_done (a ++ b) ws ≡ all_done b (left a ws))
unfolding said left all_done
through [] b ws h = (refl, refl, refl)
through (c ∷ a) b [] h = (ap (λ cs. c ∷ a ++ cs) (said_free b), left_free b, all_done_free b)
through (c ∷ a) b (done ∷ ws) h = let (e, f, g) = through a b ws h in (ap (λ cs. c ∷ cs) e, f, g)
through (c ∷ a) b (lost ∷ ws) h = absurd cc
through (c ∷ a) b (refused ∷ ws) h = absurd cc

-- where one of `a` raises, `b` is not called
pub stopped :
    (a b : List Command) (ws : List Answer)
    → all_done a ws ≡ false
    → (said (a ++ b) ws ≡ said a ws)
      × (left (a ++ b) ws ≡ left a ws)
      × (all_done (a ++ b) ws ≡ false)
unfolding said left all_done
stopped [] b ws h = absurd cc
stopped (c ∷ a) b [] h = absurd cc
stopped (c ∷ a) b (done ∷ ws) h = let (e, f, g) = stopped a b ws h in (ap (λ cs. c ∷ cs) e, f, g)
stopped (c ∷ a) b (lost ∷ ws) h = (refl, refl, refl)
stopped (c ∷ a) b (refused ∷ ws) h = (refl, refl, refl)
