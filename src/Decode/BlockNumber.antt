-- ===== src/Decode/BlockNumber.antt =====
-- decode/evm_rpc.go: ParseBlockNumberFromParams, blockParamToInt64, lookupBlockNumberFromHashParam
-- and ExtractBlockNumberFromEVMRPCRequest. Reading `params` out of range panics.
use kava_proxy_service.Base.{
  String, List, Option, none, some, Result, ok, err, panic, failure, invalid_eth_api_request,
  uncacheable_by_block_number, uncacheable_by_block_hash, ℤ, is_int64, lookup, get_elem?, str_eq,
  if◌then◌else◌,
}
use kava_proxy_service.External.{External, Envelope, Json, null, string}
use kava_proxy_service.Decode.Methods.{
  method_has_block_number_param, method_has_block_hash_param,
  method_name_to_block_number_param_index, method_name_to_block_hash_param_index,
  block_tag_to_number_codec, empty_number,
}

-- The error of a failed HeaderByHash, as both wrappers of fmt.Errorf leave it.
abbrev pub no_header : Result ℤ → Result ℤ
no_header (ok n) = ok n
no_header (err e) = err (failure "can't lookup block number from hash param")
no_header panic = panic

module _ (ext : External) where
  unfoldable pub block_param_to_int64 : String → Result ℤ
  block_param_to_int64 param = elim (ext.new_int_from_string param) [
    | none ↦ err (failure "unable to parse tag to integer")
    | some n ↦ if is_int64 n then ok n else err (failure "value out of range")
  ]

  -- What is done with `params[paramIndex]`.
  unfoldable pub parse_block_param : Option Json → Result ℤ
  unfolding block_param_to_int64 lookup
  parse_block_param none = panic
  parse_block_param (some null) = ok empty_number
  parse_block_param (some (string tag)) = elim (lookup tag block_tag_to_number_codec) [
    | some n ↦ ok n
    | none ↦ block_param_to_int64 tag
  ]
  parse_block_param (some _) = err (failure "error decoding block number param from params")

  unfoldable pub parse_block_number_from_params : String → List Json → Result ℤ
  parse_block_number_from_params method params =
      elim (lookup method method_name_to_block_number_param_index) [
        | none ↦ err uncacheable_by_block_number
        | some i ↦ parse_block_param (get_elem? params i)
      ]

  parse_hash_param : Option Json → Result ℤ
  parse_hash_param none = panic
  parse_hash_param (some (string hash)) = ext.header_by_hash hash
  parse_hash_param (some _) = err (failure "error decoding block hash param from params")

  unfoldable pub lookup_block_number_from_hash_param : String → List Json → Result ℤ
  unfolding parse_hash_param
  lookup_block_number_from_hash_param method params =
      elim (lookup method method_name_to_block_hash_param_index) [
        | none ↦ err uncacheable_by_block_hash
        | some i ↦ parse_hash_param (get_elem? params i)
      ]

  unfoldable pub extract_block_number : Envelope → Result ℤ
  extract_block_number r =
      if str_eq r.method ""
      then err invalid_eth_api_request
      else if method_has_block_number_param r.method
      then parse_block_number_from_params r.method r.params
      else if method_has_block_hash_param r.method
      then no_header (lookup_block_number_from_hash_param r.method r.params)
      else err uncacheable_by_block_number
