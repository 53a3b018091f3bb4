-- ===== src/Witnesses/Plain.antt =====
-- Examples for the packages decode and config, and the cache clients.
use kava_proxy_service.Base.{
  ℕ, [], ◌∷◌, none, some, true, false, ok, err, not_found, ℤ, pos, negsuc, is_int64, lookup, length,
  leb, lt_ℤ, ◌+ℤ◌, ◌≤◌, ◌<◌, ◌≡◌, ◌↔◌, refl, arith, panic, if◌then◌else◌,
}
use kava_proxy_service.External.{string}
use kava_proxy_service.Decode.Methods.{method_name_to_block_number_param_index}
use kava_proxy_service.Decode.BlockNumber.{parse_block_number_from_params, parse_block_param}
use kava_proxy_service.Decode.Parsing.{parse_block_number-panic_iff, parse_block_number-is_int64}
use kava_proxy_service.Config.Intervals.{lookup_interval, new_interval_url_map}
use kava_proxy_service.Config.Intervals.Containing.{IsInterval, lookup_interval-IsInterval}
use kava_proxy_service.Clients.CacheClient.{CacheLaws}
use kava_proxy_service.Clients.InMemory.{set, get, in_memory_cache}
use kava_proxy_service.Clients.InMemory.Laws.{wait, in_memory_cache-CacheLaws, expiry_exact}
use kava_proxy_service.Witnesses.Samples.{
  sample_external, sample_shards, century_later, empty_store, block_request,
}

short_params_panic_example :
    (parse_block_number_from_params sample_external "eth_getBalance" (string "0xa" ∷ []) ≡ panic)
    ↔ ((i : ℕ) × (lookup "eth_getBalance" method_name_to_block_number_param_index ≡ some i)
        × (length (string "0xa" ∷ []) ≤ i))
short_params_panic_example =
    parse_block_number-panic_iff sample_external "eth_getBalance" (string "0xa" ∷ [])

is_int64_example : is_int64 (pos 16) ≡ true
unfolding parse_block_number_from_params lookup parse_block_param
is_int64_example =
    parse_block_number-is_int64 sample_external "eth_getBlockByNumber" block_request.params (pos 16)
      refl

IsInterval-example :
    IsInterval sample_shards 15 (lookup_interval (new_interval_url_map sample_shards) 15)
IsInterval-example = lookup_interval-IsInterval sample_shards 15

pub century_is_later : (t : ℤ) → lt_ℤ (century_later t) t ≡ false
unfolding ◌+ℤ◌
century_is_later (pos n) = ground arith
century_is_later (negsuc n) = ground arith

CacheLaws-example : CacheLaws (in_memory_cache century_later)
CacheLaws-example = in_memory_cache-CacheLaws century_later century_is_later

expiry_example :
    let later = wait (pos 4) (set century_later "k" "v" (pos 3) empty_store).0 in
    ((get "k" later).1 ≡ (if leb 4 3 then ok "v" else err not_found))
    × (3 < 4 → lookup "k" (get "k" later).0.items ≡ none)
expiry_example = expiry_exact century_later "k" "v" 2 4 empty_store
