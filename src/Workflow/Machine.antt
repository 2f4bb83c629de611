-- ===== src/Workflow/Machine.antt =====
-- The day of one user as an abstract machine: what workflow.service.ts may do to the user's row, and
-- what a path of such steps keeps.
pub mod Rows
pub mod Refines
pub mod Phases
pub mod Swapped
pub mod Announced
pub mod Finished
use gusto_backend.Common.{String, Bool, true, false, Option, none, some, List, [], ◌∷◌, ◌++◌, ◌≡◌}
use gusto_backend.Hacker.Service.{OptimizedCart}
use gusto_backend.Workflow.Phase.{Phase, scouting, awaiting_approval, approved, executing, skipped}
use gusto_backend.Workflow.Selection.{MenuItem, RankedMenuItem, select_next_candidate}
use gusto_backend.Workflow.Service.State.{
  WorkflowState, ShortlistState, begin_row, is_scouted, approve_meal, skip_meal,
}

-- The rows that the steps leave.
abbrev pub first_proposed :
    List RankedMenuItem → MenuItem → OptimizedCart → WorkflowState → WorkflowState
first_proposed ranked item cart row = record row {
  phase = awaiting_approval;
  shortlist = some (record { ranked_items = ranked; current_item = item });
  optimized_cart = some cart;
  rejected_item_ids = [];
}

-- The items that are out of question behind a swap.
abbrev pub rejected_with : WorkflowState → ShortlistState → List String
rejected_with row shortlist = row.rejected_item_ids ++ shortlist.current_item.item_id ∷ []

abbrev pub next_proposed : ShortlistState → MenuItem → OptimizedCart → WorkflowState → WorkflowState
next_proposed shortlist item cart row = record row {
  phase = awaiting_approval;
  shortlist = some (record shortlist { current_item = item });
  optimized_cart = some cart;
  rejected_item_ids = rejected_with row shortlist;
}

abbrev pub approved_row : WorkflowState → WorkflowState
approved_row row = record row { phase = approved; decision = some approve_meal }

abbrev pub executing_row : WorkflowState → WorkflowState
executing_row row = record row { phase = executing }

abbrev pub skipped_row : WorkflowState → WorkflowState
skipped_row row = record row { phase = skipped; decision = some skip_meal }

-- One step of the row of a user, from the row or its absence to a row.
pub data RowStep : Option WorkflowState → WorkflowState → Type 0 where
  begins :
      {old : Option WorkflowState} (address restaurant : String)
      → is_scouted old ≡ false
      → RowStep old (begin_row address restaurant old)
  proposes :
      {row : WorkflowState} (menu : List MenuItem) (ranked : List RankedMenuItem) (item : MenuItem)
      (cart : OptimizedCart)
      → row.phase ≡ scouting
      → select_next_candidate menu ranked [] ≡ some item
      → RowStep (some row) (first_proposed ranked item cart row)
  swaps :
      {row : WorkflowState} (menu : List MenuItem) (shortlist : ShortlistState) (item : MenuItem)
      (cart : OptimizedCart)
      → row.phase ≡ awaiting_approval
      → row.shortlist ≡ some shortlist
      → select_next_candidate menu shortlist.ranked_items (rejected_with row shortlist) ≡ some item
      → RowStep (some row) (next_proposed shortlist item cart row)
  approves :
      {row : WorkflowState} → row.phase ≡ awaiting_approval → RowStep (some row) (approved_row row)
  executes : {row : WorkflowState} → row.phase ≡ approved → RowStep (some row) (executing_row row)
  skips :
      {row : WorkflowState} → row.phase ≡ awaiting_approval → RowStep (some row) (skipped_row row)

pub data RowSteps (old : Option WorkflowState) : Option WorkflowState → Type 0 where
  stays : RowSteps old old
  along :
      {mid : Option WorkflowState} {row : WorkflowState}
      → RowSteps old mid
      → RowStep mid row
      → RowSteps old (some row)

pub RowSteps-trans : {a b c : Option WorkflowState} → RowSteps a b → RowSteps b c → RowSteps a c
RowSteps-trans p stays = p
RowSteps-trans p (along q step) = along (RowSteps-trans p q) step
