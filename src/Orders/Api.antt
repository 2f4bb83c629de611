-- ===== src/Orders/Api.antt =====
-- The routes of order.controller.ts. A body is the fields that the schemas read, `none` where the
-- field is missing or of another type.
use gusto_backend.Common.{
  String, Bool, true, Option, none, some, List, [], ◌∷◌, ◌&&◌, ◌==◌, not, str_eq, if◌then◌else◌,
}
use gusto_backend.Common.Int.{pos, leb_ℤ}
use gusto_backend.Common.Http.{Action, throw, bad_request}
use gusto_backend.Hacker.Types.{Line}
use gusto_backend.Hacker.Service.{OptimizedCart}
use gusto_backend.Orders.{
  Orders, World, Answer, StoredOrderCart, populate_and_await_confirmation, confirm_and_place,
  get_status, poll_delivery_status,
}

pub record ExecuteBody : Type 0 where
  pub user_id : Option String
  pub address_id : Option String
  pub restaurant_id : Option String
  pub cart : Option OptimizedCart
  pub payment_method : Option String

-- `z.string().min(1)`
abbrev pub parse_id : Option String → Option String
parse_id none = none
parse_id (some t) = if str_eq t "" then none else some t

-- `quantity: z.number().int().positive()`
abbrev pub has_quantities : List Line → Bool
has_quantities [] = true
has_quantities (l ∷ ls) = not (l.quantity == 0) && has_quantities ls

-- `OptimizedCartSchema`: the amounts are not negative.
abbrev pub parse_cart : Option OptimizedCart → Option OptimizedCart
parse_cart none = none
parse_cart (some c) =
    if has_quantities c.items
      && leb_ℤ (pos 0) c.discount_applied
      && leb_ℤ (pos 0) c.final_total
      && leb_ℤ (pos 0) c.savings_achieved
    then some c
    else none

-- `ExecuteOrderRequestSchema`
abbrev pub parse_execute : ExecuteBody → Option (String × StoredOrderCart)
parse_execute b = elim (parse_id b.user_id) [
  | none ↦ none
  | some user ↦ elim (parse_id b.address_id) [
    | none ↦ none
    | some address ↦ elim (parse_id b.restaurant_id) [
      | none ↦ none
      | some restaurant ↦ elim (parse_cart b.cart) [
        | none ↦ none
        | some c ↦ some (
          user,
          record {
            cart = c;
            address_id = address;
            restaurant_id = restaurant;
            payment_method = b.payment_method;
          },
        )
      ]
    ]
  ]
]

pub data OrderRequest : Type 0 where
  execute : ExecuteBody → OrderRequest
  confirm : Option String → OrderRequest
  status_of poll_delivery : String → OrderRequest

unfoldable pub serve_order : (String → String) → World → OrderRequest → Action Orders Answer
serve_order to_upper_case w (execute b) = elim (parse_execute b) [
  | none ↦ throw bad_request
  | some (user, stored) ↦ populate_and_await_confirmation w user stored
]
serve_order to_upper_case w (confirm id) = elim (parse_id id) [
  | none ↦ throw bad_request
  | some order ↦ confirm_and_place w order
]
serve_order to_upper_case w (status_of id) = get_status id
serve_order to_upper_case w (poll_delivery id) = poll_delivery_status to_upper_case w id

-- Requests one behind the other, each with the world it meets.
unfoldable pub serve_orders : (String → String) → List (World × OrderRequest) → Orders → Orders
unfolding serve_order
serve_orders to_upper_case [] s = s
serve_orders to_upper_case ((w, r) ∷ rs) s =
    serve_orders to_upper_case rs (serve_order to_upper_case w r s).1
