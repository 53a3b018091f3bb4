-- ===== src/External.antt =====
-- What the code calls and does not implement: the JSON codec at the places where it is used, SHA-256,
-- the integers of cosmossdk.io/math, the Ethereum client, URL parsing, number parsing, and the
-- reverse proxy. Each is a function of the model's types, and every definition that uses one takes
-- this record as a parameter. Bodies of requests and responses are texts.
mod Types
pub use Types.*
use kava_proxy_service.Base.{ℕ, String, Option, List, ℤ, Bool, Error, Result}

pub record External : Type 0 where
  -- cosmosmath.NewIntFromString, with `valid` as the `Option`.
  pub new_int_from_string : String → Option ℤ
  -- HeaderByHash(ctx, HexToHash(hash)) of the Ethereum client, and the int64 of its block number.
  pub header_by_hash : String → Result ℤ
  -- json.Unmarshal of a body into one request, and into a list of requests, where `null` is nil.
  pub unmarshal_request : String → Option Envelope
  pub unmarshal_requests : String → Option (List (Option Envelope))
  -- json.Marshal of a request of a batch, of a request's params, and of its ID.
  pub marshal_request : Option Envelope → Option String
  pub marshal_params : List Json → Option String
  pub marshal_id : Json → Option String
  -- json.Unmarshal into any value, into a response, and into a transaction.
  pub unmarshal_value : String → Option Json
  pub unmarshal_response : String → Option JsonRpcResponse
  pub unmarshal_tx : String → Option Tx
  pub marshal_response : JsonRpcResponse → Option String
  -- the QueryResponse that is stored in the cache
  pub marshal_query_response : QueryResponse → Option String
  pub unmarshal_query_response : String → Option QueryResponse
  -- json.Marshal of a list of json.RawMessage: fails unless each is valid JSON.
  pub marshal_raw_messages : List String → Option String
  -- whether http.NewRequestWithContext accepts a method and a URL
  pub new_request_ok : String → String → Bool
  -- hex.EncodeToString(sha256.Sum256(data))
  pub sha256_hex : String → String
  -- fmt's %d
  pub print_number : ℕ → String
