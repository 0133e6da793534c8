-- ===== src/Main/Ending.antt =====
-- How the process ends, by what its calls answer.
use pi_scan.Base.{◌≡◌, Bool, true, false, List, [], ◌∷◌, ◌++◌}
use pi_scan.Main.{
  MainCall, Reaction, returns, throws, hangs, Ended, exited, terminated, hung, saves_state,
  saves_config,
}

abbrev settle : Reaction → Reaction → Reaction
settle returns rest = rest
settle throws rest = throws
settle hangs rest = hangs

-- The first answer in a block that is not a return, if there is one.
abbrev pub first_fault : (MainCall → Reaction) → List MainCall → Reaction
first_fault answer [] = returns
first_fault answer (c ∷ cs) = let rest = first_fault answer cs in settle (answer c) rest

abbrev pub is_return : Reaction → Bool
is_return returns = true
is_return _ = false

abbrev pub is_hang : Reaction → Bool
is_hang hangs = true
is_hang _ = false

-- The end of a process whose start and whose stop come to these answers.
abbrev pub ended_by : Reaction → Reaction → Ended
ended_by hangs stop = hung
ended_by start hangs = hung
ended_by throws stop = terminated
ended_by returns stop = exited

-- The last calls that returned, latest first.
abbrev pub saved_last : Ended → List MainCall
saved_last hung = []
saved_last _ = saves_config ∷ saves_state ∷ []

-- How a run ends and what it does last.
abbrev pub Ends : Ended × List MainCall → Ended → Type 0
Ends run ended = (before : List MainCall) × (run.0 ≡ ended) × (run.1 ≡ saved_last ended ++ before)
