-- ===== src/CacheMdw/Response.antt =====
-- service/cachemdw/response.go: which responses may be cached.
use kava_proxy_service.Base.{
  String, Option, none, some, Bool, true, false, not, ◌&&◌, ◌||◌, str_eq, if◌then◌else◌,
}
use kava_proxy_service.External.{
  External, Json, null, boolean, number, string, array, object, Items, nil, cons, JsonRpcResponse,
  Tx,
}

abbrev is_nil : Items → Bool
is_nil nil = true
is_nil (cons _ _) = false

-- The switch on the type of the decoded result.
unfoldable pub is_value_empty : Json → Bool
is_value_empty (array items) = is_nil items
is_value_empty (string r) = str_eq r "" || str_eq r "0x0" || str_eq r "0x"
is_value_empty (boolean r) = not r
is_value_empty null = true
is_value_empty (number _) = false
is_value_empty (object _) = false

-- A result that does not parse counts as empty.
abbrev is_decoded_empty : Option Json → Bool
is_decoded_empty none = true
is_decoded_empty (some v) = is_value_empty v

abbrev has_error : JsonRpcResponse → Bool
has_error resp = elim resp.json_rpc_error [ none ↦ false | some _ ↦ true ]

-- v != nil && v != ""
abbrev is_present : Json → Bool
is_present null = false
is_present (string s) = not (str_eq s "")
is_present _ = true

unfoldable pub is_included_in_block : Tx → Bool
is_included_in_block tx =
    is_present tx.block_hash && is_present tx.block_number && is_present tx.transaction_index

abbrev is_decoded_included : Option Tx → Bool
is_decoded_included none = false
is_decoded_included (some tx) = is_included_in_block tx

module _ (ext : External) where
  unfoldable pub is_result_empty : JsonRpcResponse → Bool
  is_result_empty resp =
      if str_eq resp.result "" then true else is_decoded_empty (ext.unmarshal_value resp.result)

  unfoldable pub is_response_cacheable : JsonRpcResponse → Bool
  is_response_cacheable resp =
      if has_error resp then false else if is_result_empty resp then false else true

  unfoldable pub is_response_final : JsonRpcResponse → String → Bool
  is_response_final resp method =
      if str_eq method "eth_getTransactionByHash"
      then is_decoded_included (ext.unmarshal_tx resp.result)
      else true
