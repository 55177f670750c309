-- ===== src/Resilience/SlidingWindow/Tests.antt =====
-- A sliding window on concrete inputs.
use microservices_base.Prelude.{◌≡◌, refl, String, List, [], ◌∷◌, arith}
use microservices_base.Prelude.Int.{ℤ, pos}
use microservices_base.Resilience.SlidingWindow.{
  SlidingWindowConfig, new_sliding_window, allow, from_first_valid,
}
use microservices_base.Resilience.SlidingWindow.Spacing.{Spaced}
use microservices_base.Resilience.SlidingWindow.Granted.{granted, new_sliding_window-Spaced}

abbrev config : SlidingWindowConfig
config = record { limit = pos 2; window = pos 10 }

abbrev asks : List (ℤ × String)
asks = (pos 1, "a") ∷ (pos 2, "b") ∷ (pos 3, "c") ∷ (pos 11, "d") ∷ (pos 12, "e") ∷ []

-- The third request is refused, and the fourth comes just as the first leaves the window.
five_asks : granted asks (new_sliding_window config) ≡ pos 1 ∷ pos 2 ∷ pos 11 ∷ pos 12 ∷ []
unfolding new_sliding_window allow from_first_valid
five_asks = refl

new_sliding_window-Spaced_example : Spaced 2 (pos 10) (granted asks (new_sliding_window config))
new_sliding_window-Spaced_example =
    new_sliding_window-Spaced config 2 (pos 0) asks refl
      (omega arith, (omega arith, (omega arith, (omega arith, (omega arith, tt)))))
