-- ===== src/Workflow/Phase.antt =====
-- WorkflowStateMachine (workflow.state-machine.ts): the phases of a day and their transitions.
use gusto_backend.Common.{Bool, true, false, List, [], ◌∷◌, ◌||◌}

pub data Phase : Type 0 where
  scouting optimizing awaiting_approval approved executing complete skipped : Phase

-- `===` on the phase texts
abbrev pub phase_eq : Phase → Phase → Bool
phase_eq scouting scouting = true
phase_eq optimizing optimizing = true
phase_eq awaiting_approval awaiting_approval = true
phase_eq approved approved = true
phase_eq executing executing = true
phase_eq complete complete = true
phase_eq skipped skipped = true
phase_eq _ _ = false

-- `TRANSITIONS`
abbrev pub transitions : Phase → List Phase
transitions scouting = optimizing ∷ []
transitions optimizing = awaiting_approval ∷ []
transitions awaiting_approval = awaiting_approval ∷ approved ∷ skipped ∷ []
transitions approved = executing ∷ []
transitions executing = complete ∷ []
transitions complete = []
transitions skipped = []

abbrev pub includes : Phase → List Phase → Bool
includes p [] = false
includes p (q ∷ qs) = phase_eq q p || includes p qs

unfoldable pub can_transition : Phase → Phase → Bool
can_transition before next = includes next (transitions before)
