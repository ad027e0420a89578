-- ===== src/Callout/Deadline.antt =====
-- task.c: when the pending callouts are due.
use scal_ux.Prelude.{List, [], ap, refl, ℕ, ◌++◌, ◌+◌, ◌∷◌, ◌≡◌}
use scal_ux.Callout.{Callout}

-- Each callout with its time, for a queue whose first counts from `start`.
unfoldable pub deadlines : ℕ → List Callout → List (ℕ × ℕ)
deadlines start [] = []
deadlines start (co ∷ l) = (co.id, start + co.nanosecs) ∷ deadlines (start + co.nanosecs) l

-- The time of the last.
unfoldable pub last_due : ℕ → List Callout → ℕ
last_due start [] = start
last_due start (co ∷ l) = last_due (start + co.nanosecs) l

pub deadlines-append :
    (start : ℕ) (l r : List Callout)
    → deadlines start (l ++ r) ≡ deadlines start l ++ deadlines (last_due start l) r
unfolding deadlines last_due
deadlines-append start [] r = refl
deadlines-append start (co ∷ l) r =
    ap (λ d. (co.id, start + co.nanosecs) ∷ d) (deadlines-append (start + co.nanosecs) l r)
