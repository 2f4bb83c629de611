-- ===== src/Gateway/Redis.antt =====
-- The data of mcp-gateway-service, cache.service.ts over Redis, and token-provider.service.ts.
-- `Library` stands for the packages' code, `World` for what the clock, Redis, auth-service and
-- Swiggy's server do in one request.
use gusto_backend.Common.{
  ℕ, zero, suc, ◌+◌, ◌*◌, String, Bool, Option, none, some, List, [], ◌∷◌, if◌then◌else◌, str_eq,
  ltb,
}
use gusto_backend.Common.Int.{ℤ}
use gusto_backend.Common.Dict.{Dict, lookup, insert, erase}
use gusto_backend.Common.Text.{◌++◌}
use gusto_backend.Common.Http.{ok, err, Action, ◌>>=◌, pure, internal}

-- A value of a JSON body: a text, or anything else as it is written.
pub data Json : Type 0 where
  string_value other_value : String → Json

-- `Record<string, unknown>`, in the order of its fields.
abbrev pub Args : Type 0
Args = Dict Json

pub record ToolCall : Type 0 where
  pub tool : String
  pub args : Args
  pub user_id : String

-- `response.data`: nothing, or a result with its `success` and what else it has.
pub data Answer : Type 0 where
  no_result : Answer
  result : Bool → String → Answer

-- `error.response`: the status, and `data.error.code`, `data.error.message` and `data.success`.
pub record ErrorResponse : Type 0 where
  pub http_status : ℕ
  pub code : Option ℤ
  pub message : String
  pub success : Option Bool

pub data Reply : Type 0 where
  answered : Answer → Reply
  failed : Option ErrorResponse → Reply

-- A call that went out, with what came back.
pub record Sent : Type 0 where
  pub call : ToolCall
  pub reply : Reply

-- A Redis key with its time to live.
pub record Cell : Type 0 where
  pub value : String
  pub expires : ℕ  -- ms

pub record Gateway : Type 0 where
  pub redis : Dict Cell
  pub sent : List Sent  -- newest first
  pub waits : List ℕ  -- `baseMs` of the waits, newest first

-- `scan p m` is the pages that a whole SCAN of the keys `m` returns for `MATCH p`.
pub record Library : Type 0 where
  pub digest : Args → String  -- hex of the SHA-256 of `JSON.stringify(args)`
  pub stringify : Answer → String
  pub parse : String → Option Answer
  pub scan : String → Dict Cell → List (List String)

pub record World : Type 0 where
  pub now : ℕ
  pub reads : Bool  -- Redis answers the reads
  pub writes : Bool  -- Redis takes the writes
  pub token : Option String  -- auth-service's answer
  pub replies : ℕ → Reply  -- Swiggy's, by the attempt

-- `redis.get`
abbrev pub live : ℕ → Option Cell → Option String
live now none = none
live now (some c) = if ltb now c.expires then some c.value else none

unfoldable pub redis_get : World → String → Action Gateway (Option String)
redis_get w key s = (if w.reads then ok (live w.now (lookup key s.redis)) else err internal, s)

-- `redis.setex`
unfoldable pub redis_setex : World → String → ℕ → String → Action Gateway (Unit {0})
redis_setex w key seconds value s =
    if w.writes
    then (
      ok tt,
      record s {
        redis = insert key (record { value = value; expires = w.now + 1000 * seconds }) s.redis;
      },
    )
    else (err internal, s)

-- `redis.del`
unfoldable pub redis_del : World → String → Action Gateway (Unit {0})
redis_del w key s =
    if w.writes then (ok tt, record s { redis = erase key s.redis }) else (err internal, s)

-- `if (!data) return null`, and `null` where the text is no JSON.
abbrev pub parsed : Library → Option String → Option Answer
parsed l none = none
parsed l (some data_text) = if str_eq data_text "" then none else l.parse data_text

unfoldable pub cache_get : Library → World → String → Action Gateway (Option Answer)
cache_get l w key = do data_text ← redis_get w key; pure (parsed l data_text)

unfoldable pub cache_set : Library → World → String → Answer → ℕ → Action Gateway (Unit {0})
cache_set l w key value zero = pure tt
cache_set l w key value (suc ttl) = redis_setex w key (suc ttl) (l.stringify value)

abbrev pub erase_all : List String → Dict Cell → Dict Cell
erase_all [] m = m
erase_all (k ∷ ks) m = erase_all ks (erase k m)

-- `delByPrefix`: page by page.
abbrev pub erase_pages : List (List String) → Dict Cell → Dict Cell
erase_pages [] m = m
erase_pages (ks ∷ pages) m = erase_pages pages (erase_all ks m)

unfoldable pub del_by_prefix : Library → World → String → Action Gateway (Unit {0})
del_by_prefix l w prefix s =
    if w.writes
    then (ok tt, record s { redis = erase_pages (l.scan (prefix ++ "*") s.redis) s.redis })
    else (err internal, s)

abbrev pub token_ttl : ℕ
token_ttl = 30

abbrev pub token_key : String → String
token_key user = "mcp:token:" ++ user

-- The `try` of `getToken`: each failure in it is a 500.
unfoldable pub request_token : World → String → Action Gateway String
request_token w user s = elim w.token [
  | none ↦ (err internal, s)
  | some token ↦
      let (r, s') = redis_setex w (token_key user) token_ttl token s in
      (elim r [ ok _ ↦ ok token | err _ ↦ err internal ], s')
]

unfoldable pub get_token : World → String → Action Gateway String
get_token w user = do
  cached ← redis_get w (token_key user)
  elim cached [
    | none ↦ request_token w user
    | some token ↦ if str_eq token "" then request_token w user else pure token
  ]
