-- ===== src/Main/Signals.antt =====
-- What the signals of a running process come to.
use pi_scan.Base.{◌≡◌, refl, true, false, List, [], ◌∷◌, none, some}
use pi_scan.Main.{Signal, interrupt, terminate, handle_signal, handle_signals}

-- The first signal ends the loop, and one more before the end of the process terminates it.
handle_signals_twice :
    (x y : Signal) (xs : List Signal)
    → (handle_signals (x ∷ []) true ≡ some false) × (handle_signals (x ∷ y ∷ xs) true ≡ none)
unfolding handle_signals handle_signal
handle_signals_twice interrupt interrupt xs = (refl, refl)
handle_signals_twice interrupt terminate xs = (refl, refl)
handle_signals_twice terminate interrupt xs = (refl, refl)
handle_signals_twice terminate terminate xs = (refl, refl)
