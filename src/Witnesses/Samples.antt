-- ===== src/Witnesses/Samples.antt =====
-- Sample values: simple functions in the place of the code that is called, a configuration with one
-- host, and requests.
use kava_proxy_service.Base.{
  String, [], ◌∷◌, Option, none, some, Bool, true, false, ok, ℤ, pos, ◌+ℤ◌, str_eq, join,
  if◌then◌else◌,
}
use kava_proxy_service.External.{External, Envelope, null, boolean, string, QueryResponse}
use kava_proxy_service.Http.{Request, Context, background, content, write, ResponseWriter}
use kava_proxy_service.Config.Intervals.{UrlByHeight, new_interval_url_map}
use kava_proxy_service.Routing.Selection.{RoutingConfig}
use kava_proxy_service.Clients.InMemory.{InMemoryCache, in_memory_cache}
use kava_proxy_service.CacheMdw.ServiceCache.{CacheConfig, ServiceCache}
use kava_proxy_service.Service.BodySaver.{Negroni}
use kava_proxy_service.Service.ProxyRequest.{Backend, ServingConfig}
use kava_proxy_service.Service.Chain.{ServiceConfig}
use kava_proxy_service.Handlers.{World}

-- Only a response without headers is encoded, as its result.
abbrev pub encode_cached : QueryResponse → Option String
encode_cached q = elim q.header_map [ [] ↦ some q.json_rpc_response_result | _ ∷ _ ↦ none ]

abbrev pub sample_external : External
sample_external = record {
  new_int_from_string = λ s. if str_eq s "0x10" then some (pos 16) else none;
  header_by_hash = λ _. ok (pos 7);
  unmarshal_request = λ _. none;
  unmarshal_requests = λ _. none;
  marshal_request = λ _. some "{}";
  marshal_params = λ _. some "[]";
  marshal_id = λ _. some "1";
  unmarshal_value = λ s. some (string s);
  unmarshal_response =
      λ s. some (record { version = "2.0"; id = "1"; result = s; json_rpc_error = none });
  unmarshal_tx = λ _. none;
  marshal_response = λ r. some r.result;
  marshal_query_response = encode_cached;
  unmarshal_query_response = λ s. some (record { json_rpc_response_result = s; header_map = [] });
  marshal_raw_messages = λ bodies. some (join "," bodies);
  new_request_ok = λ _ _. true;
  sha256_hex = λ _. "00";
  print_number = λ _. "0";
}

abbrev pub block_request : Envelope
block_request = record {
  json_rpc_version = "2.0";
  id = null;
  method = "eth_getBlockByNumber";
  params = string "0x10" ∷ boolean false ∷ [];
}

abbrev pub sample_context : Context
sample_context = record background { decoded_request = some block_request; start_time = some 5 }

abbrev pub sample_request : Request
sample_request = record {
  method = "POST";
  url = "/";
  host = "api";
  header = ("X-Forwarded-For", "1.1.1.1" ∷ "2.2.2.2" ∷ []) ∷ [];
  body = content "{}";
  remote_addr = "3.3.3.3:80";
  context = sample_context;
}

abbrev pub sample_shards : UrlByHeight
sample_shards = (10, "shard-10") ∷ (20, "shard-20") ∷ []

abbrev pub sample_routing : RoutingConfig
sample_routing = record {
  proxy_backend_host_url_map_parsed = ("api", "archive") ∷ [];
  enable_height_based_routing = true;
  proxy_pruning_backend_host_url_map = ("api", "pruning") ∷ [];
  enable_sharded_routing = true;
  proxy_shard_backend_host_url_map = ("api", new_interval_url_map sample_shards) ∷ [];
}

abbrev pub sample_serving : ServingConfig
sample_serving = record {
  cache_enabled = true;
  hostname_to_access_control_allow_origin_value_map = [];
  default_access_control_allow_origin_value = "*";
}

abbrev pub sample_config : ServiceConfig
sample_config = record {
  routing = sample_routing;
  serving = sample_serving;
  metric_collection_enabled = true;
}

abbrev pub sample_ttls : CacheConfig
sample_ttls = record {
  cache_method_has_block_number_param_ttl = pos 60;
  cache_method_has_block_hash_param_ttl = pos 60;
  cache_static_method_ttl = pos 60;
  cache_method_has_tx_hash_param_ttl = pos 60;
}

abbrev pub century_later : ℤ → ℤ
century_later t = t +ℤ pos 3155760000000000000

abbrev pub sample_cache : ServiceCache InMemoryCache
sample_cache = record {
  cache_client = in_memory_cache century_later;
  cache_prefix = "chain";
  cache_enabled = true;
  whitelisted_headers = [];
  config = sample_ttls;
}

abbrev pub empty_store : InMemoryCache
empty_store = record { items = []; now = pos 0 }

-- A writer that passes everything on.
abbrev pub sample_negroni : {W : Type 0} → Negroni Bool W
sample_negroni = record {
  fresh = false;
  written = λ n. n;
  negroni_write = λ o b w. (true, o.write_body b w.1);
  negroni_write_status = λ o s w. (true, o.write_status s w.1);
}

abbrev pub sample_backend : Backend
sample_backend url r = record { writer_calls = write "0x5" ∷ []; panics = false }

-- A backend that always panics.
abbrev pub broken_backend : Backend
broken_backend url r = record { writer_calls = []; panics = true }

abbrev pub new_writer : ResponseWriter
new_writer = record { header = []; status = none; body = "" }

abbrev pub new_world : World InMemoryCache ResponseWriter
new_world = record { store = empty_store; writer = new_writer; metrics = [] }
