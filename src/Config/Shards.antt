-- ===== src/Config/Shards.antt =====
-- config/config.go: ParseRawShardRoutingBackendHostURLMap. The first bad definition ends the parse
-- with the map of the hosts before it.
pub mod Ascending
use kava_proxy_service.Base.{
  ℕ, zero, ◌%◌, String, List, [], ◌∷◌, ◌++◌, Option, none, some, Bool, true, false, ◌==◌, length,
  ltb, str_eq, split, Dict, insert, Error, failure, Result, ok, err, panic, if◌then◌else◌, not,
  ◌>>=◌,
}
use kava_proxy_service.Exec.{from_option, check}
use kava_proxy_service.Config.Intervals.{
  Url, UrlByHeight, url_at, IntervalUrlMap, new_interval_url_map,
}
use kava_proxy_service.Config.Environment.{System}

abbrev pub is_none {ℓ} : {A : Type ℓ} → Option A → Bool
is_none none = true
is_none (some _) = false

-- One round of the loop: the checks of a shard with the parsed height and backend, after the shards
-- `shards`, of which the last ends at `prev_max_height`.
unfoldable pub add_shard : Option ℕ → Option Url → ℕ → UrlByHeight → Result (ℕ × UrlByHeight)
add_shard parsed_height parsed_url prev_max_height shards = do
  end_height ← from_option (failure "invalid shard end height") parsed_height
  _ ← check (not (end_height == 0)) (failure "invalid shard end height")
  _ ← check (is_none (url_at end_height shards)) (failure "multiple shards defined")
  _ ← check (not (ltb end_height prev_max_height)) (failure "end blocks are not ordered")
  backend_route ← from_option (failure "invalid shard backend route") parsed_url
  _ ← check (not (str_eq backend_route "")) (failure "invalid shard backend route")
  ok (end_height, shards ++ ((end_height, backend_route) ∷ []))

module _ (sys : System) where
  -- The loop over the values in pairs; a value alone would be an index out of range.
  unfoldable pub add_shards : List String → ℕ → UrlByHeight → Result UrlByHeight
  add_shards [] prev_max_height shards = ok shards
  add_shards (_ ∷ []) prev_max_height shards = panic
  add_shards (height_text ∷ url_text ∷ rest) prev_max_height shards =
      add_shard (sys.parse_uint height_text) (sys.parse_url url_text) prev_max_height shards
      >>= λ (height, more). add_shards rest height more

  unfoldable pub host_shards : List String → Result (String × UrlByHeight)
  host_shards (host ∷ values ∷ []) = do
    _ ← check (length (split b'|' values) % 2 == 0) (failure "unexpected sequence")
    shards ← add_shards (split b'|' values) 0 []
    ok (host, shards)
  host_shards _ = err (failure "expected shard definition")

  abbrev pub then_hosts :
      (Dict IntervalUrlMap → Dict IntervalUrlMap × Result (Unit {0}))
      → Dict IntervalUrlMap
      → Result (String × UrlByHeight)
      → Dict IntervalUrlMap × Result (Unit {0})
  then_hosts next parsed (ok (host, shards)) =
      next (insert host (new_interval_url_map shards) parsed)
  then_hosts next parsed (err e) = (parsed, err e)
  then_hosts next parsed panic = (parsed, panic)

  unfoldable pub parse_hosts :
      List String → Dict IntervalUrlMap → Dict IntervalUrlMap × Result (Unit {0})
  parse_hosts [] parsed = (parsed, ok tt)
  parse_hosts (definition ∷ rest) parsed =
      then_hosts (parse_hosts rest) parsed (host_shards (split b'>' definition))

  unfoldable pub parse_raw_shard_routing_backend_host_url_map :
      String → Dict IntervalUrlMap × Result (Unit {0})
  unfolding parse_hosts
  parse_raw_shard_routing_backend_host_url_map raw =
      if str_eq raw "" then ([], ok tt) else parse_hosts (split b',' raw) []
