-- ===== src/Config/HostMaps.antt =====
-- config/config.go: ParseRawProxyBackendHostURLMap and ParseRawHostnameToHeaderValueMap. An error that
-- errors.Join builds is the list of the joined errors, and nil the empty list.
pub mod RoundTrip
use kava_proxy_service.Base.{
  String, List, [], ◌∷◌, ◌++◌, Option, none, some, Bool, ◌||◌, length, ltb, str_eq, split, ◌+++◌,
  Dict, insert, Error, failure, empty_host_map, empty_hostname_to_header_value_map, if◌then◌else◌,
}
use kava_proxy_service.Config.Intervals.{Url}
use kava_proxy_service.Config.Environment.{System}

abbrev pub Errors : Type 0
Errors = List Error

module _ {V : Type 0} (parse_value : String → Option V) where
  -- The host and the value of an entry with the two components `host>value`.
  abbrev pub with_value : String → Option V → Option (String × V)
  with_value host none = none
  with_value host (some v) = some (host, v)

  unfoldable pub entry_of : List String → Option (String × V)
  entry_of (host ∷ value ∷ []) = with_value host (parse_value value)
  entry_of _ = none

  unfoldable pub add_entry :
      String → String → Option (String × V) → Dict V × Errors → Dict V × Errors
  add_entry message entry none (values, errors) =
      (values, errors ++ (failure (message +++ entry) ∷ []))
  add_entry message entry (some (host, v)) (values, errors) = (insert host v values, errors)

  -- The loop over the entries: a bad entry adds an error, and the loop goes on.
  unfoldable pub add_entries : String → List String → Dict V × Errors → Dict V × Errors
  add_entries message [] state = state
  add_entries message (entry ∷ rest) state =
      add_entries message rest (add_entry message entry (entry_of (split b'>' entry)) state)

  unfoldable pub parse_entries : Error → String → String → Dict V × Errors
  parse_entries empty message raw =
      let entries = split b',' raw in
      if str_eq raw "" || ltb (length entries) 1
      then ([], empty ∷ failure ("found zero mappings delimited by , in " +++ raw) ∷ [])
      else add_entries message entries ([], [])

unfoldable pub parse_raw_proxy_backend_host_url_map : System → String → Dict Url × Errors
unfolding parse_entries
parse_raw_proxy_backend_host_url_map sys raw =
    parse_entries sys.parse_url empty_host_map
      "expected map value of host to backend url delimited by >, got " raw

unfoldable pub parse_raw_hostname_to_header_value_map : String → Dict String × Errors
unfolding parse_entries
parse_raw_hostname_to_header_value_map raw =
    parse_entries some empty_hostname_to_header_value_map
      "expected map value of hostname to header value delimited by >, got " raw
