-- ===== src/Examples/Placements.antt =====
-- The theorems on order-execution-service at one order of 15000 paise.
use gusto_backend.Common.{
  suc, String, true, false, none, some, List, [], ◌∷◌, ◌≡◌, ◌≢◌, refl, arith, inl,
}
use gusto_backend.Common.Int.{pos, ◌-ℤ◌}
use gusto_backend.Common.Dict.{lookup}
use gusto_backend.Common.Http.{ok}
use gusto_backend.Escrow.{Subscription}
use gusto_backend.Escrow.Invariant.{IsSolvent}
use gusto_backend.Hacker.Service.{OptimizedCart, success}
use gusto_backend.Orders.{
  Orders, Order, World, answered, reply_lost, pending_confirmation, placed, check_pending,
  place_order, confirm_and_place, settle, mark_placed, wallet_call, get_status,
  poll_delivery_status,
}
use gusto_backend.Orders.Api.{
  OrderRequest, confirm, poll_delivery, status_of, serve_order, serve_orders,
}
use gusto_backend.Orders.Wallet.{WalletsSolvent, serve_orders-WalletsSolvent}
use gusto_backend.Orders.Placement.{Confirms, serve_orders-OncePlaced, placed_only_by_confirm}
use gusto_backend.Orders.Placement.Marks.{placements, OncePlaced}
use gusto_backend.Orders.Backing.{serve_orders-IsBacked, confirm_settles_after}
use gusto_backend.Orders.Backing.Rows.{IsBacked, pending_total}
use gusto_backend.Orders.Settle.{status_and_wallet, confirm_settles, racing_confirms_place_twice}

abbrev cart : OptimizedCart
cart = record {
  items = record { item_id = "thali"; quantity = 1 } ∷ [];
  base_cost = 15000;
  filler_cost = 0;
  discount_applied = pos 0;
  final_total = pos 15000;
  savings_achieved = pos 0;
  coupon_code = none;
  over_budget = false;
  decision_log = [];
}

abbrev order : Order
order = record {
  user_id = "asha";
  swiggy_order_ref = none;
  order_status = pending_confirmation;
  stored_cart = record {
    cart = cart;
    address_id = "home";
    restaurant_id = "r1";
    payment_method = none;
  };
  savings_achieved = pos 0;
  placed_at = none;
  delivered_at = none;
}

abbrev sub : Subscription
sub = record {
  total_deposited = pos 90000;
  current_balance = pos 60000;
  reserved_amount = pos 15000;
  days_left = 12;
  daily_avg_limit = pos 5000;
}

abbrev pending : Orders
pending = record {
  orders = ("o1", order) ∷ [];
  escrow = record { subscriptions = ("asha", sub) ∷ []; published = [] };
  calls = [];
  events = [];
}

-- Swiggy takes the order; the answer of the capture is lost.
abbrev world : World
world = record {
  now = 7;
  uuid = "u1";
  reserving = answered true;
  capturing = reply_lost true;
  releasing = answered true;
  updates_cart = true;
  applies_coupon = true;
  gets_cart = true;
  lists_orders = true;
  confirms = true;
  placing = success (some (record { order_id_camel = some "sw1"; order_id_snake = none }));
  tracking = some (some "delivered");
  bus = true;
}

abbrev same : String → String
same text = text

abbrev requests : List (World × OrderRequest)
requests =
    (world, confirm (some "o1")) ∷ (world, confirm (some "o1")) ∷ (world, poll_delivery "o1") ∷ []

there : lookup "o1" pending.orders ≡ some order
unfolding lookup
there = refl

mine : lookup "asha" pending.escrow.subscriptions ≡ some sub
unfolding lookup
mine = refl

sub-IsSolvent : IsSolvent sub
sub-IsSolvent = record { reserved_nonneg = omega arith; covered = omega arith }

solvent : WalletsSolvent pending
unfolding lookup
solvent user row h = ground (arith, sub-IsSolvent)

unplaced : (id : String) → OncePlaced pending id
unfolding placements
unplaced id = inl refl

serve_orders-OncePlaced_example : OncePlaced (serve_orders same requests pending) "o1"
serve_orders-OncePlaced_example = serve_orders-OncePlaced same requests pending unplaced "o1"

serve_orders-WalletsSolvent_example : WalletsSolvent (serve_orders same requests pending)
serve_orders-WalletsSolvent_example = serve_orders-WalletsSolvent same requests pending solvent

confirm_settles_example :
    status_and_wallet (confirm_and_place world "o1" pending).1 "o1" "asha"
    ≡ (some placed, some (record sub { current_balance = pos 45000; reserved_amount = pos 0 }))
unfolding ◌-ℤ◌
confirm_settles_example =
    confirm_settles world "o1" order pending sub there refl mine (omega arith) (omega arith) refl
      (ground arith) (ground arith)

grew :
    placements "o1" (serve_order same world (confirm (some "o1")) pending).1.calls
    ≢ placements "o1" pending.calls
unfolding serve_order confirm_and_place check_pending place_order settle mark_placed wallet_call
    lookup placements
grew = λ e. ground arith

placed_only_by_confirm_example : Confirms (confirm (some "o1")) "o1" pending
placed_only_by_confirm_example =
    placed_only_by_confirm same world (confirm (some "o1")) pending "o1" grew

racing_confirms_place_twice_example :
    (check_pending "o1" pending ≡ (ok order, pending))
    × (placements "o1"
          (place_order world "o1" order (place_order world "o1" order pending).1).1.calls
        ≡ suc (suc (placements "o1" pending.calls)))
racing_confirms_place_twice_example =
    racing_confirms_place_twice world world "o1" order pending there refl

backed : IsBacked pending "asha"
unfolding pending_total lookup
backed = omega arith

serve_orders-IsBacked_example : IsBacked (serve_orders same requests pending) "asha"
serve_orders-IsBacked_example = serve_orders-IsBacked same requests "asha" pending backed

abbrev quiet_requests : List (World × OrderRequest)
quiet_requests = (world, poll_delivery "o1") ∷ (world, status_of "o1") ∷ []

still_there : lookup "o1" (serve_orders same quiet_requests pending).orders ≡ some order
unfolding serve_orders serve_order poll_delivery_status get_status lookup
still_there = refl

still_mine :
    lookup "asha" (serve_orders same quiet_requests pending).escrow.subscriptions ≡ some sub
unfolding serve_orders serve_order poll_delivery_status get_status lookup
still_mine = refl

confirm_settles_after_example :
    status_and_wallet
      (confirm_and_place world "o1" (serve_orders same quiet_requests pending)).1
      "o1"
      "asha"
    ≡ (some placed, some (record sub { current_balance = pos 45000; reserved_amount = pos 0 }))
unfolding ◌-ℤ◌
confirm_settles_after_example =
    confirm_settles_after same quiet_requests pending world "o1" order sub backed still_there refl
      still_mine (omega arith) refl (ground arith) (ground arith)
