-- ===== src/Programs/Log.antt =====
-- Which lines of a program's log are printed.
use mathlib.Core.List.{append_assoc, append-nil}
use nfsplayground.Base.{ℕ, ◌≡◌, ◌≢◌, refl, ◌∙◌, ap, false, List, [], ◌∷◌, ◌++◌, ◌==◌}
use nfsplayground.Programs.{last_line, lines_from}

-- A line holds no newline and no zero byte.
abbrev pub IsLine : List ℕ → Type 0
IsLine [] = Unit
IsLine (c ∷ cs) = ((c == 0) ≡ false) × ((c == b'\n') ≡ false) × IsLine cs

abbrev pub AllLines : List (List ℕ) → Type 0
AllLines [] = Unit
AllLines (l ∷ ls) = IsLine l × AllLines ls

-- Lines that end in a newline, then a last one that does not.
pub joined : List (List ℕ) → List ℕ → List ℕ
joined [] end = end
joined (l ∷ ls) end = l ++ b'\n' ∷ joined ls end

lines_from-line :
    (before l rest : List ℕ)
    → IsLine l
    → lines_from before (l ++ rest) ≡ lines_from (before ++ l) rest
unfolding lines_from
lines_from-line before [] rest h = rw append-nil
lines_from-line before (c ∷ cs) rest (nonzero, other, h) =
    rw (nonzero, other) (lines_from-line (before ++ c ∷ []) cs rest h ∙ rw append_assoc)

lines_from-joined :
    (ls : List (List ℕ)) (end rest : List ℕ)
    → AllLines ls
    → lines_from [] (joined ls (end ++ rest)) ≡ ls ++ lines_from [] (end ++ rest)
unfolding joined lines_from
lines_from-joined [] end rest h = refl
lines_from-joined (l ∷ ls) end rest h =
    lines_from-line [] l (b'\n' ∷ joined ls (end ++ rest)) h.0
    ∙ ap (λ t. l ∷ t) (lines_from-joined ls end rest h.1)

-- The lines printed of a text: those that end in a newline, and its end, unless that is empty.
abbrev pub Printed : List (List ℕ) → List (List ℕ) → List ℕ → Type 0
Printed printed ls end = (end ≡ [] → printed ≡ ls) × (end ≢ [] → printed ≡ ls ++ end ∷ [])

last_line-Printed :
    (printed ls : List (List ℕ)) (end : List ℕ)
    → printed ≡ ls ++ last_line end
    → Printed printed ls end
unfolding last_line
last_line-Printed printed ls [] e = (λ _. e ∙ rw append-nil refl, λ some. absurd (some refl))
last_line-Printed printed ls (c ∷ cs) e = (λ none. absurd (cc none), λ _. e)

-- Of the bytes given to the loop that prints a log, if they are lines that end in a newline and then
-- an end without one, each line is printed once and in order, and then the end, unless it is empty;
-- a zero byte behind it ends the text, whatever stands after that.
pub lines_from-text :
    (ls : List (List ℕ)) (end junk : List ℕ)
    → AllLines ls
    → IsLine end
    → Printed (lines_from [] (joined ls end)) ls end
      × Printed (lines_from [] (joined ls (end ++ 0 ∷ junk))) ls end
unfolding lines_from
lines_from-text ls end junk h k = (
  last_line-Printed _ ls end (
      rw append-nil at
        (lines_from-joined ls end [] h ∙ ap (λ t. ls ++ t) (lines_from-line [] end [] k))),
  last_line-Printed _ ls end (
      lines_from-joined ls end (0 ∷ junk) h
      ∙ ap (λ t. ls ++ t) (lines_from-line [] end (0 ∷ junk) k)),
)
