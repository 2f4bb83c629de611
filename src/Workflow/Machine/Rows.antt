-- ===== src/Workflow/Machine/Rows.antt =====
-- The tables that the handlers of workflow.service.ts leave, and the steps between them.
use gusto_backend.Common.{
  String, false, Option, none, some, List, [], ◌∷◌, ◌≡◌, refl, sym, subst, ◌≢◌, arith,
  if◌then◌else◌,
}
use gusto_backend.Common.Dict.{Dict, lookup, insert, lookup-insert_self, lookup-insert_ne}
use gusto_backend.Hacker.Service.{OptimizedCart}
use gusto_backend.Workflow.Phase.{scouting, can_transition}
use gusto_backend.Workflow.Selection.{MenuItem, select_next_candidate, menu_of}
use gusto_backend.Workflow.Service.State.{
  Workflow, WorkflowState, ShortlistState, Upstreams, Upstream, returns, fails, Call,
  get_subscription, get_preference_profile, get_restaurant_menu, analyze, optimize_cart,
  send_menu_of_the_day, execute_order, rollover, weekly_budget, parse_preference_profile, cart_item,
  begin_row, is_scouted,
}
use gusto_backend.Workflow.Service.{run_scout_phase, approve, skip, propose_next}
use gusto_backend.Workflow.Machine.{
  RowStep, RowSteps, stays, along, first_proposed, next_proposed, rejected_with, approved_row,
  executing_row, skipped_row,
}

-- By what a call came to.
abbrev pub if_returns : {A B : Type 0} → Upstream A → B → (A → B) → B
if_returns (returns a) x f = f a
if_returns (fails e) x f = x

pub if_returns_both :
    {A B : Type 0} (P : B → Type 0) (u : Upstream A) (x : B) (f : A → B)
    → P x
    → ((a : A) → P (f a))
    → P (if_returns u x f)
if_returns_both P (returns a) x f p q = q a
if_returns_both P (fails e) x f p q = p

abbrev pub if_some : {A B : Type 0} → Option A → B → (A → B) → B
if_some (some a) x f = f a
if_some none x f = x

pub if_some_both :
    {A B : Type 0} (P : B → Type 0) (o : Option A) (x : B) (f : A → B)
    → P x
    → ((a : A) → o ≡ some a → P (f a))
    → P (if_some o x f)
if_some_both P (some a) x f p q = q a refl
if_some_both P none x f p q = p

-- Between two tables: the row of the user goes along steps, the rows of the others stay.
pub record Moves (user : String) (before after : Dict WorkflowState) : Type 0 where
  pub steps : RowSteps (lookup user before) (lookup user after)
  pub others : (j : String) → user ≢ j → lookup j after ≡ lookup j before

pub Moves-refl : (user : String) (rows : Dict WorkflowState) → Moves user rows rows
Moves-refl user rows = record { steps = stays; others = λ j ne. refl }

pub Moves-insert :
    (user : String) (rows mid : Dict WorkflowState) (row : WorkflowState)
    → Moves user rows mid
    → RowStep (lookup user mid) row
    → Moves user rows (insert user row mid)
Moves-insert user rows mid row m step = record {
  steps =
      subst (RowSteps (lookup user rows)) (sym (lookup-insert_self user row mid))
        (along m.steps step);
  others = λ j ne. grind (arith, lookup-insert_ne, m.others);
}

pub Moves-step :
    (user : String) (rows mid : Dict WorkflowState) (old row : WorkflowState)
    → Moves user rows mid
    → lookup user mid ≡ some old
    → RowStep (some old) row
    → Moves user rows (insert user row mid)
Moves-step user rows mid old row m there step =
    Moves-insert user rows mid row m (subst (λ o. RowStep o row) (sym there) step)

-- The rows and the calls that the handlers leave, by what the calls came to.
abbrev pub tables : Workflow → Dict WorkflowState × List Call
tables t = (t.rows, t.calls)

module _ (up : Upstreams) (user address restaurant : String) (s : Workflow) (row : WorkflowState)
    (there : lookup user s.rows ≡ some row) where
  pub propose_next-tables :
      (shortlist : ShortlistState) (menu : List MenuItem) (item : MenuItem)
      → let asked = get_subscription user ∷ s.calls in
        let optimize = optimize_cart user restaurant address (cart_item item) in
        tables
          (propose_next up user address restaurant shortlist
            (rejected_with row shortlist)
            menu
            item
            s).1
        ≡ if_returns up.subscription
            (s.rows, asked)
            λ sub.
              if_returns up.cart
                (s.rows, optimize sub.daily_avg_limit ∷ asked)
                λ cart. (
                  insert user (next_proposed shortlist item cart row) s.rows,
                  send_menu_of_the_day user cart ∷ optimize sub.daily_avg_limit ∷ asked,
                )
  unfolding propose_next
  propose_next-tables shortlist menu item = ground arith

  pub approve-tables :
      (cart : OptimizedCart) (shortlist : ShortlistState)
      → let executed = execute_order user address restaurant cart ∷ s.calls in
        tables (approve up user address restaurant cart shortlist s).1
        ≡ if_returns up.order
            (insert user (approved_row row) s.rows, executed)
            λ o. (
              insert user
                  (executing_row (approved_row row))
                  (insert user (approved_row row) s.rows),
              executed,
            )
  unfolding approve can_transition
  approve-tables cart shortlist = ground (arith, lookup-insert_self user (approved_row row) s.rows)

  pub skip-tables :
      (shortlist : ShortlistState)
      → tables (skip up user shortlist s).1
        ≡ (insert user (skipped_row row) s.rows, rollover user ∷ s.calls)
  unfolding skip can_transition
  skip-tables shortlist = ground arith

-- The tables behind the calls of the scout phase, from `rows` with the user's row `begun`.
abbrev pub scouted_tables :
    Upstreams
    → String
    → String
    → String
    → WorkflowState
    → Dict WorkflowState
    → List Call
    → Dict WorkflowState × List Call
scouted_tables up user address restaurant begun rows calls =
    if_returns up.subscription (rows, calls)
      λ sub.
        if_returns up.profile (rows, calls)
          λ profile.
            if_returns up.menu (rows, calls)
              λ body.
                let menu = menu_of restaurant body in
                let analyzed =
                  analyze user (parse_preference_profile profile) menu (weekly_budget sub)
                  ∷ calls in
                if_returns up.ranking (rows, analyzed)
                  λ ranked.
                    if_some (select_next_candidate menu ranked []) (rows, analyzed)
                      λ item.
                        let optimized =
                          optimize_cart user restaurant address (cart_item item) sub.daily_avg_limit
                          ∷ analyzed in
                        if_returns up.cart (rows, optimized)
                          λ cart. (
                            insert user (first_proposed ranked item cart begun) rows,
                            send_menu_of_the_day user cart ∷ optimized,
                          )

abbrev pub first_calls : String → String → String → List Call → List Call
first_calls user address restaurant calls =
    get_restaurant_menu user address restaurant
    ∷ get_preference_profile user
    ∷ get_subscription user
    ∷ calls

pub run_scout_phase-tables :
    (up : Upstreams) (user address restaurant : String) (s : Workflow)
    → let begun = begin_row address restaurant (lookup user s.rows) in
      tables (run_scout_phase up user address restaurant s).1 ≡ (
        if is_scouted (lookup user s.rows)
        then tables s
        else scouted_tables up user address restaurant begun
            (insert user begun s.rows)
            (first_calls user address restaurant s.calls))
unfolding run_scout_phase can_transition
run_scout_phase-tables up user address restaurant s =
    ground
      (arith, lookup-insert_self user (begin_row address restaurant (lookup user s.rows)) s.rows)

pub begin_row-scouting :
    (address restaurant : String) (old : Option WorkflowState)
    → is_scouted old ≡ false
    → (begin_row address restaurant old).phase ≡ scouting
begin_row-scouting address restaurant none e = refl
begin_row-scouting address restaurant (some row) e = ground arith
