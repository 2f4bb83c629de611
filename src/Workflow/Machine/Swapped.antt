-- ===== src/Workflow/Machine/Swapped.antt =====
-- A proposal that was swapped away, over the rest of the day.
use gusto_backend.Common.{
  String, Bool, true, false, Option, none, some, List, [], ◌∷◌, ◌++◌, ◌≡◌, ◌≢◌, ◌⊎◌, inl, inr, refl,
  arith, ◌||◌, str_eq_iff, Any, Option-cases, Bool-cases,
}
use gusto_backend.Common.Dict.{lookup}
use gusto_backend.Hacker.Filler.{contains}
use gusto_backend.Workflow.Selection.{MenuItem, RankedMenuItem, menu_by_id, select_next_candidate}
use gusto_backend.Workflow.Selection.Best.{offered, IsBestOffered, select_next_candidate_best}
use gusto_backend.Workflow.Service.State.{Workflow, WorkflowState, Upstreams, is_scouted}
use gusto_backend.Workflow.Api.{WorkflowRequest, serve_day}
use gusto_backend.Workflow.Machine.{
  RowStep, RowSteps, stays, along, begins, proposes, swaps, approves, executes, skips,
}
use gusto_backend.Workflow.Machine.Refines.{serve_day-RowSteps}

menu_by_id-id :
    (menu : List MenuItem) (id : String) (item : MenuItem)
    → menu_by_id menu id ≡ some item
    → item.item_id ≡ id
unfolding menu_by_id
menu_by_id-id [] id item e = ground arith
menu_by_id-id (m ∷ menu) id item e = elim (Option-cases (menu_by_id menu id)) [
  | inl h ↦ ground (arith, str_eq_iff m.item_id id)
  | inr (found, h) ↦ ground (arith, menu_by_id-id menu id found h)
]

offered-unrejected :
    (menu : List MenuItem) (rejected : List String) (r : RankedMenuItem) (item : MenuItem)
    → offered menu rejected r ≡ some item
    → contains rejected item.item_id ≡ false
offered-unrejected menu rejected r item e = elim (Bool-cases (contains rejected r.item_id)) [
  | inl c ↦ ground arith
  | inr c ↦ grind (arith, menu_by_id-id menu r.item_id item)
]

chosen-unrejected :
    (menu : List MenuItem) (ranked : List RankedMenuItem) (rejected : List String) (item : MenuItem)
    → select_next_candidate menu ranked rejected ≡ some item
    → contains rejected item.item_id ≡ false
chosen-unrejected menu ranked rejected item chosen =
    found ranked (select_next_candidate_best menu ranked rejected item chosen)
  where
    found :
        (l : List RankedMenuItem)
        → Any (λ r. (offered menu rejected r ≡ some item) × IsBestOffered menu rejected ranked r) l
        → contains rejected item.item_id ≡ false
    found [] h = absurd h
    found (r ∷ l) (inl h) = offered-unrejected menu rejected r item h.0
    found (r ∷ l) (inr h) = found l h

contains-append :
    (xs ys : List String) (id : String)
    → contains (xs ++ ys) id ≡ (contains xs id || contains ys id)
contains-append [] ys id = refl
contains-append (x ∷ xs) ys id = ground (arith, contains-append xs ys id)

-- The item that a row proposes.
abbrev pub proposal : Option WorkflowState → Option String
proposal none = none
proposal (some row) = elim row.shortlist [
  | none ↦ none
  | some shortlist ↦ some shortlist.current_item.item_id
]

abbrev pub rejects : Option WorkflowState → String → Bool
rejects none item = false
rejects (some row) item = contains row.rejected_item_ids item

-- Past the scout phase, an item that was rejected and is not the proposal; or that is the proposal.
record IsSetAside (item : String) (o : Option WorkflowState) : Type 0 where
  scouted : is_scouted o ≡ true
  rejected : rejects o item ≡ true
  other : proposal o ≢ some item

record IsProposed (item : String) (o : Option WorkflowState) : Type 0 where
  scouted : is_scouted o ≡ true
  current : proposal o ≡ some item

module _ (item : String) where
  step-IsSetAside :
      {o : Option WorkflowState} {row : WorkflowState}
      → RowStep o row
      → IsSetAside item o
      → IsSetAside item (some row)
  step-IsSetAside (begins address restaurant e) h = absurd (ground (arith, h.scouted))
  step-IsSetAside (proposes menu ranked new cart e chosen) h = absurd (ground (arith, h.scouted))
  step-IsSetAside (swaps {row} menu shortlist new cart e l chosen) h = record {
    scouted = refl;
    rejected = ground (
      arith,
      h.rejected,
      contains-append row.rejected_item_ids (shortlist.current_item.item_id ∷ []) item,
    );
    other = ground (
      arith,
      h.rejected,
      chosen-unrejected menu shortlist.ranked_items _ new chosen,
      contains-append row.rejected_item_ids (shortlist.current_item.item_id ∷ []) item,
    );
  }
  step-IsSetAside (approves e) h = record { scouted = refl; rejected = h.rejected; other = h.other }
  step-IsSetAside (executes e) h = record { scouted = refl; rejected = h.rejected; other = h.other }
  step-IsSetAside (skips e) h = record { scouted = refl; rejected = h.rejected; other = h.other }

  step-IsProposed :
      {o : Option WorkflowState} {row : WorkflowState}
      → RowStep o row
      → IsProposed item o
      → IsProposed item (some row) ⊎ IsSetAside item (some row)
  step-IsProposed (begins address restaurant e) h = absurd (ground (arith, h.scouted))
  step-IsProposed (proposes menu ranked new cart e chosen) h = absurd (ground (arith, h.scouted))
  step-IsProposed (swaps {row} menu shortlist new cart e l chosen) h = inr (record {
    scouted = refl;
    rejected = ground (
      arith,
      h.current,
      l,
      str_eq_iff shortlist.current_item.item_id item,
      contains-append row.rejected_item_ids (shortlist.current_item.item_id ∷ []) item,
    );
    other = ground (
      arith,
      h.current,
      l,
      str_eq_iff shortlist.current_item.item_id item,
      chosen-unrejected menu shortlist.ranked_items _ new chosen,
      contains-append row.rejected_item_ids (shortlist.current_item.item_id ∷ []) item,
    );
  })
  step-IsProposed (approves e) h = inl (record { scouted = refl; current = h.current })
  step-IsProposed (executes e) h = inl (record { scouted = refl; current = h.current })
  step-IsProposed (skips e) h = inl (record { scouted = refl; current = h.current })

  steps-IsSetAside :
      {old new : Option WorkflowState}
      → RowSteps old new
      → IsSetAside item old
      → IsSetAside item new
  steps-IsSetAside stays h = h
  steps-IsSetAside (along q step) h = step-IsSetAside step (steps-IsSetAside q h)

  steps-IsProposed :
      {old new : Option WorkflowState}
      → RowSteps old new
      → IsProposed item old
      → IsProposed item new ⊎ IsSetAside item new
  steps-IsProposed stays h = inl h
  steps-IsProposed (along q step) h = elim (steps-IsProposed q h) [
    | inl p ↦ step-IsProposed step p
    | inr a ↦ inr (step-IsSetAside step a)
  ]

-- Over any requests of a day and any answers of the other services, from a row past the scout phase:
-- once an item that was the proposal of the user is it no longer, it is not proposed again on the day.
pub replaced_stays_away :
    (rs later : List (Upstreams × WorkflowRequest)) (s : Workflow) (user item : String)
    → is_scouted (lookup user s.rows) ≡ true
    → proposal (lookup user s.rows) ≡ some item
    → proposal (lookup user (serve_day rs s).rows) ≢ some item
    → proposal (lookup user (serve_day later (serve_day rs s)).rows) ≢ some item
replaced_stays_away rs later s user item scouted current gone =
    elim (steps-IsProposed item (serve_day-RowSteps rs s user)
      (record { scouted = scouted; current = current })) [
        | inl p ↦ absurd (gone p.current)
        | inr a ↦ (steps-IsSetAside item (serve_day-RowSteps later (serve_day rs s) user) a).other
      ]
