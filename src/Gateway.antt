-- ===== src/Gateway.antt =====
-- mcp-gateway-service (apps/mcp-gateway-service/src/modules): `FoodMcpClient.callTool` of
-- food-mcp.client.ts, over the data and the cache of Gateway/Redis.
pub mod Redis
pub mod Limiter
pub mod Keys
pub mod Calls
pub mod Sources
pub mod Answers
pub mod Carts
use gusto_backend.Common.{
  ℕ, zero, suc, ◌+◌, ◌*◌, ◌-◌, ◌^◌, String, Bool, true, false, Option, none, some, List, [], ◌∷◌,
  if◌then◌else◌, str_eq, ltb, leb, ◌==◌, not, ◌&&◌, ◌||◌, any,
}
use gusto_backend.Common.Int.{ℤ, negsuc, eqb_ℤ}
use gusto_backend.Common.Dict.{Dict, lookup, insert, erase}
use gusto_backend.Common.Text.{◌++◌, starts_with, includes}
use gusto_backend.Common.Http.{
  Result, ok, err, Action, ◌>>=◌, ◌>>◌, pure, throw, HttpError, http, internal, service_unavailable,
}
use gusto_backend.Gateway.Redis.{
  Args, ToolCall, Answer, ErrorResponse, Gateway, Library, World, redis_del, cache_get, cache_set,
  del_by_prefix, get_token, string_value, other_value, result, no_result, answered, failed,
}

abbrev pub cache_key : Library → String → String → Args → String
cache_key l tool user args = "mcp:food:" ++ (tool ++ (":" ++ (user ++ (":" ++ l.digest args))))

abbrev pub is_cacheable : String → Bool
is_cacheable tool =
    str_eq tool "search_restaurants"
    || str_eq tool "search_menu"
    || str_eq tool "get_restaurant_menu"
    || str_eq tool "get_food_cart"

-- `typeof args.addressId === "string"`
abbrev pub address_id : Args → Option String
address_id args = elim (lookup "addressId" args) [ some (string_value a) ↦ some a | _ ↦ none ]

abbrev pub cart_prefix : String → String
cart_prefix user = "mcp:food:get_food_cart:" ++ (user ++ ":")

abbrev pub flush_carts : Library → World → String → Action Gateway (Unit {0})
flush_carts l w user = del_by_prefix l w (cart_prefix user)

-- Behind the test of the tool, by `args.addressId`.
unfoldable pub invalidate_address :
    Library → World → String → Option String → Action Gateway (Unit {0})
invalidate_address l w user none = flush_carts l w user
invalidate_address l w user (some a) =
    redis_del w (cache_key l "get_food_cart" user (("addressId", string_value a) ∷ []))

unfoldable pub invalidate_cart_cache : Library → World → ToolCall → Action Gateway (Unit {0})
invalidate_cart_cache l w c =
    if str_eq c.tool "update_food_cart"
    then invalidate_address l w c.user_id (address_id c.args)
    else flush_carts l w c.user_id

-- `result && result.success`
abbrev pub succeeded : Answer → Bool
succeeded no_result = false
succeeded (result success rest) = success

abbrev pub changes_cart : String → Bool
changes_cart tool = str_eq tool "update_food_cart" || str_eq tool "flush_food_cart"

abbrev pub cache_ttl : ℕ
cache_ttl = 300

unfoldable pub store : Library → World → ToolCall → Answer → Action Gateway (Unit {0})
store l w c v =
    if is_cacheable c.tool && succeeded v
    then cache_set l w (cache_key l c.tool c.user_id c.args) v cache_ttl
    else pure tt

unfoldable pub invalidate : Library → World → ToolCall → Answer → Action Gateway (Unit {0})
invalidate l w c v =
    if succeeded v && changes_cart c.tool then invalidate_cart_cache l w c else pure tt

-- What follows the answer in the `try`: a failing Redis is an error without a response, which is not
-- tried again.
unfoldable pub accept : Library → World → ToolCall → Answer → Action Gateway Answer
accept l w c v s =
    let (r, s') = (store l w c v >> invalidate l w c v) s in
    (elim r [ ok _ ↦ ok v | err _ ↦ err service_unavailable ], s')

-- `isRetryable(error, attempt)` of an error with a response
abbrev pub has_code : ErrorResponse → ℤ → Bool
has_code e z = elim e.code [ none ↦ false | some c ↦ eqb_ℤ c z ]

abbrev pub is_retryable_response : ErrorResponse → ℕ → Bool
is_retryable_response e attempt =
    if (e.http_status == 401) || has_code e (negsuc 32000)
    then false
    else if (e.http_status == 400)
        || (starts_with e.message "Invalid " || starts_with e.message "Missing ")
    then false
    else if (e.http_status == 504) || includes e.message "timeout"
    then true
    else if (e.http_status == 502) || (e.http_status == 503)
    then true
    else if (e.http_status == 200) && elim e.success [ some false ↦ true | _ ↦ false ]
    then false
    else if (e.http_status == 500) || has_code e (negsuc 32602)
    then attempt == 1
    else false

-- Without a response there is no status, no message and no code.
unfoldable pub is_retryable : Option ErrorResponse → ℕ → Bool
is_retryable none attempt = false
is_retryable (some e) attempt = is_retryable_response e attempt

-- `handleFinalError`
abbrev pub final_error : Option ErrorResponse → HttpError
final_error none = service_unavailable
final_error (some e) = http e.http_status

abbrev pub max_attempts : String → ℕ
max_attempts tool = if str_eq tool "place_food_order" then 1 else 5

-- The loop, with the attempts left behind this one; `n` is how many failed.
unfoldable pub try_tool : Library → World → ToolCall → ℕ → ℕ → Action Gateway Answer
try_tool l w c zero n s =
    let sent_state = record s { sent = record { call = c; reply = w.replies n } ∷ s.sent } in
    elim (w.replies n) [
      | answered v ↦ accept l w c v sent_state
      | failed e ↦ (err (final_error e), sent_state)
    ]
try_tool l w c (suc left) n s =
    let sent_state = record s { sent = record { call = c; reply = w.replies n } ∷ s.sent } in
    let waited = record sent_state { waits = 500 * 2 ^ n ∷ s.waits } in
    elim (w.replies n) [
      | answered v ↦ accept l w c v sent_state
      | failed e ↦
          if is_retryable e (suc n)
          then try_tool l w c left (suc n) waited
          else (err (final_error e), sent_state)
    ]

abbrev pub send_tool : Library → World → ToolCall → Action Gateway Answer
send_tool l w c = do get_token w c.user_id; try_tool l w c (max_attempts c.tool - 1) 0

-- `if (cached) return cached`
abbrev pub truthy_answer : Option Answer → Option Answer
truthy_answer (some (result success rest)) = some (result success rest)
truthy_answer _ = none

-- Behind the look into the cache.
unfoldable pub serve_cached : Library → World → ToolCall → Option Answer → Action Gateway Answer
serve_cached l w c none = send_tool l w c
serve_cached l w c (some v) = pure v

unfoldable pub look_up : Library → World → ToolCall → Action Gateway Answer
look_up l w c = do
  cached ← cache_get l w (cache_key l c.tool c.user_id c.args)
  serve_cached l w c (truthy_answer cached)

unfoldable pub call_tool : Library → World → ToolCall → Action Gateway Answer
call_tool l w c s = if is_cacheable c.tool then look_up l w c s else send_tool l w c s

-- Calls one behind the other, each with the world it meets.
unfoldable pub call_tools : Library → List (World × ToolCall) → Gateway → Gateway
call_tools l [] s = s
call_tools l ((w, c) ∷ cs) s = call_tools l cs (call_tool l w c s).1

abbrev pub initial : Gateway
initial = record { redis = []; sent = []; waits = [] }
