-- ===== src/CacheMdw/Keys.antt =====
-- service/cachemdw/keys.go: the key under which a response is cached.
pub mod Injective
use kava_proxy_service.Base.{
  String, List, [], ◌∷◌, Option, none, some, Result, ok, err, failure, join, ◌+++◌,
}
use kava_proxy_service.External.{External, Envelope}

pub data CacheItemType : Type 0 where
  evm_request : CacheItemType
  other_item : CacheItemType

-- CacheItemType.String; `other_item` stands for the numbers that are no item type.
unfoldable pub item_type_string : CacheItemType → String
item_type_string evm_request = "evm-request"
item_type_string other_item = "unknown"

unfoldable pub build_cache_key : String → CacheItemType → List String → String
unfolding item_type_string
build_cache_key cache_prefix item_type parts =
    join ":" (cache_prefix ∷ item_type_string item_type ∷ parts)

module _ (ext : External) where
  -- The key of a method and of params in JSON.
  unfoldable pub query_key : String → String → String → String
  query_key cache_prefix method params_json =
      build_cache_key cache_prefix evm_request
        (method ∷ "sha256" ∷ ext.sha256_hex (method +++ params_json) ∷ [])

  pub key_of_params : String → String → Option String → Result String
  key_of_params cache_prefix method none = err (failure "can't marshal params")
  key_of_params cache_prefix method (some params_json) =
      ok (query_key cache_prefix method params_json)

  unfoldable pub get_query_key : String → Option Envelope → Result String
  unfolding key_of_params
  get_query_key cache_prefix none = err (failure "request shouldn't be nil")
  get_query_key cache_prefix (some req) =
      key_of_params cache_prefix req.method (ext.marshal_params req.params)
