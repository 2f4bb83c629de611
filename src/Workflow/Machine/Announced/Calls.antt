-- ===== src/Workflow/Machine/Announced/Calls.antt =====
-- What executeOrder and the menu notifications leave in the calls of workflow.service.ts.
use gusto_backend.Common.{
  String, Bool, true, false, some, List, [], ◌∷◌, ◌≡◌, ◌≢◌, inl, inr, arith, str_eq, str_eq_iff,
  Any, Bool-cases,
}
use gusto_backend.Common.Dict.{Dict, lookup, insert, lookup-insert}
use gusto_backend.Hacker.Service.{OptimizedCart}
use gusto_backend.Workflow.Phase.{awaiting_approval}
use gusto_backend.Workflow.Service.State.{WorkflowState, Call, execute_order, send_menu_of_the_day}

-- The menu notification of a cart went out to the user.
abbrev pub WasSent : String → OptimizedCart → List Call → Type 0
WasSent user cart calls = Any (λ c. c ≡ send_menu_of_the_day user cart) calls

-- Each cart that was ordered was sent to its user before; the newest call comes first.
abbrev pub OrdersAnnounced : List Call → Type 0
OrdersAnnounced [] = Unit
OrdersAnnounced (execute_order user address restaurant cart ∷ cs) =
    WasSent user cart cs × OrdersAnnounced cs
OrdersAnnounced (_ ∷ cs) = OrdersAnnounced cs

abbrev is_order : Call → Bool
is_order (execute_order user address restaurant cart) = true
is_order _ = false

-- And so was the cart of each row that awaits approval.
pub record Announced (rows : Dict WorkflowState) (calls : List Call) : Type 0 where
  pub ordered : OrdersAnnounced calls
  pub waiting :
      (user : String) (row : WorkflowState) (cart : OptimizedCart)
      → lookup user rows ≡ some row
      → row.phase ≡ awaiting_approval
      → row.optimized_cart ≡ some cart
      → WasSent user cart calls

module _ (rows : Dict WorkflowState) (calls : List Call) (h : Announced rows calls) where
  pub other_call : (c : Call) → is_order c ≡ false → Announced rows (c ∷ calls)
  other_call c e = record {
    ordered = ground (arith, h.ordered);
    waiting = λ u row cart l p o. inr (h.waiting u row cart l p o);
  }

  pub order_call :
      (user address restaurant : String) (cart : OptimizedCart)
      → WasSent user cart calls
      → Announced rows (execute_order user address restaurant cart ∷ calls)
  order_call user address restaurant cart sent = record {
    ordered = (sent, h.ordered);
    waiting = λ u row c l p o. inr (h.waiting u row c l p o);
  }

  pub write_decided :
      (user : String) (row : WorkflowState)
      → row.phase ≢ awaiting_approval
      → Announced (insert user row rows) calls
  write_decided user row decided = record {
    ordered = h.ordered;
    waiting = λ u r cart l p o. elim (Bool-cases (str_eq user u)) [
      | inl e ↦ absurd (ground (arith, lookup-insert user u row rows))
      | inr e ↦ h.waiting u r cart (ground (arith, lookup-insert user u row rows)) p o
    ];
  }

  pub write_proposed :
      (user : String) (row : WorkflowState) (cart : OptimizedCart)
      → row.optimized_cart ≡ some cart
      → Announced (insert user row rows) (send_menu_of_the_day user cart ∷ calls)
  write_proposed user row cart shown = record {
    ordered = h.ordered;
    waiting = λ u r c l p o. elim (Bool-cases (str_eq user u)) [
      | inl e ↦ inl (grind (arith, lookup-insert user u row rows, str_eq_iff user u))
      | inr e ↦ inr (h.waiting u r c (ground (arith, lookup-insert user u row rows)) p o)
    ];
  }
