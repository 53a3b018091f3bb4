-- ===== src/External/Types.antt =====
-- The values that cross the JSON codec: decode/evm_rpc.go (EVMRPCRequestEnvelope) and
-- service/cachemdw (QueryResponse, JsonRpcError, JsonRpcResponse, tx). Go's `interface{}` after
-- json.Unmarshal is `Json`; a number is kept as its literal, since no code looks into one.
use kava_proxy_service.Base.{String, Option, List, [], Bool, Dict, ℤ}

mutual
  pub data Json : Type 0 where
    null : Json
    boolean : Bool → Json
    number string : String → Json
    array : Items → Json
    object : Fields → Json

  pub data Items : Type 0 where
    nil : Items
    cons : Json → Items → Items

  pub data Fields : Type 0 where
    end : Fields
    field : String → Json → Fields → Fields

-- EVMRPCRequestEnvelope; a nil slice of params is the empty list.
pub record Envelope : Type 0 where
  pub json_rpc_version : String
  pub id : Json
  pub method : String
  pub params : List Json

-- new(decode.EVMRPCRequestEnvelope)
abbrev pub empty_envelope : Envelope
empty_envelope = record { json_rpc_version = ""; id = null; method = ""; params = [] }

pub record QueryResponse : Type 0 where
  pub json_rpc_response_result : String
  pub header_map : Dict String

pub record JsonRpcError : Type 0 where
  pub code : ℤ
  pub message : String

pub record JsonRpcResponse : Type 0 where
  pub version : String
  pub id : String
  pub result : String
  pub json_rpc_error : Option JsonRpcError

-- The fields of `tx` that the code reads.
pub record Tx : Type 0 where
  pub block_hash : Json
  pub block_number : Json
  pub transaction_index : Json
