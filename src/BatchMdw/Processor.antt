-- ===== src/BatchMdw/Processor.antt =====
-- service/batchmdw/batch_processor.go: BatchProcessor. A goroutine's visible actions are the calls
-- of the three methods that take the mutex. RequestAndServe waits for all goroutines, so it sees
-- the state after some interleaving of their actions.
pub mod Interleaving
pub mod Sums
pub mod Counts
pub mod Serving
pub mod CacheHeader
use kava_proxy_service.Base.{
  ℕ, zero, suc, ◌+◌, String, List, [], ◌∷◌, ◌++◌, map, Option, none, some, Bool, true, false, not,
  ◌||◌, ◌==◌, str_eq, if◌then◌else◌, Result, ok, err, panic, failure, length, set, replicate, ◌≡◌,
}
use kava_proxy_service.External.{External}
use kava_proxy_service.Http.{Header, ResponseWriter, WriterCall, header_get, header_set, header_del}
use kava_proxy_service.BatchMdw.FakeWriter.{FakeResponseWriter, new_fake_response_writer, calls}

-- service/cachemdw/is_cached_middleware.go: the header that tells of a cache hit.
abbrev pub cache_header_key : String
cache_header_key = "X-Kava-Proxy-Cache-Status"

abbrev pub cache_hit_header_value : String
cache_hit_header_value = "HIT"

abbrev pub cache_miss_header_value : String
cache_miss_header_value = "MISS"

abbrev pub cache_partial_header_value : String
cache_partial_header_value = "PARTIAL"

unfoldable pub is_cache_hit_headers : Header → Bool
is_cache_hit_headers header = str_eq (header_get header cache_header_key) cache_hit_header_value

-- The fields that change; `none` among the responses is a nil buffer.
pub record BatchProcessor : Type 0 where
  pub responses : List (Option String)
  pub header : Option Header
  pub cache_hits : ℕ
  pub status : ℕ

unfoldable pub new_batch_processor : ℕ → BatchProcessor
new_batch_processor requests = record {
  responses = replicate requests none;
  header = none;
  cache_hits = 0;
  status = 200;
}

unfoldable pub set_response : ℕ → String → BatchProcessor → BatchProcessor
set_response idx res bp = record bp { responses = set bp.responses idx (some res) }

-- Only the first response's headers are kept.
unfoldable pub first_header : Option Header → Header → Header
first_header none h = header_del (header_del h "Content-Length") cache_header_key
first_header (some old) h = old

unfoldable pub apply_headers : Header → BatchProcessor → BatchProcessor
unfolding first_header is_cache_hit_headers
apply_headers h bp = record bp {
  header = some (first_header bp.header h);
  cache_hits = if is_cache_hit_headers h then bp.cache_hits + 1 else bp.cache_hits;
}

unfoldable pub set_err_status : ℕ → BatchProcessor → BatchProcessor
set_err_status status bp = record bp { status = status }

unfoldable pub cache_hit_value : ℕ → ℕ → String
cache_hit_value total_num cache_hits =
    if cache_hits == 0 || total_num == 0
    then cache_miss_header_value
    else if cache_hits == total_num
    then cache_hit_header_value
    else cache_partial_header_value

-- What the handler does with the writer of a sub-request, and whether it panics at the end.
pub record SubRequest : Type 0 where
  pub writer_calls : List WriterCall
  pub panics : Bool

-- The writer when the handler is done.
abbrev pub writer_of : SubRequest → FakeResponseWriter
writer_of sub = calls new_fake_response_writer sub.writer_calls

pub data Action : Type 0 where
  err_status : ℕ → Action
  respond : String → Action
  headers : Header → Action

-- The actions of a goroutine, in order. A panic is recovered, and skips the last two.
unfoldable pub goroutine : SubRequest → List Action
goroutine sub =
    map err_status (writer_of sub).error_statuses
    ++ (if sub.panics
        then []
        else respond (writer_of sub).body ∷ headers (writer_of sub).header ∷ [])

unfoldable pub act : ℕ → Action → BatchProcessor → BatchProcessor
unfolding set_response apply_headers set_err_status
act idx (err_status status) bp = set_err_status status bp
act idx (respond res) bp = set_response idx res bp
act idx (headers h) bp = apply_headers h bp

-- The processor after a sequence of actions, each with the index of its goroutine.
unfoldable pub run : List (ℕ × Action) → BatchProcessor → BatchProcessor
unfolding act
run [] bp = bp
run ((idx, a) ∷ trace) bp = run trace (act idx a bp)

-- The actions of one goroutine in a sequence.
unfoldable pub actions_of : ℕ → List (ℕ × Action) → List Action
actions_of idx [] = []
actions_of idx ((j, a) ∷ trace) =
    if j == idx then a ∷ actions_of idx trace else actions_of idx trace

-- The goroutine at an index; behind the last there is none.
unfoldable pub goroutine_at : ℕ → List SubRequest → List Action
unfolding goroutine
goroutine_at idx [] = []
goroutine_at zero (sub ∷ subs) = goroutine sub
goroutine_at (suc idx) (sub ∷ subs) = goroutine_at idx subs

-- A sequence in which each goroutine does its actions, in its order.
abbrev pub IsInterleaving : List SubRequest → List (ℕ × Action) → Type 0
IsInterleaving subs trace = (idx : ℕ) → actions_of idx trace ≡ goroutine_at idx subs

-- The inner loop that writes the values of a header: the last value wins.
unfoldable pub set_values : String → List String → Header → Header
set_values k [] w = w
set_values k (val ∷ vals) w = set_values k vals (header_set w k val)

unfoldable pub set_all : Header → Header → Header
unfolding set_values
set_all [] w = w
set_all ((k, v) ∷ rest) w = set_all rest (set_values k v w)

abbrev header_or_empty : Option Header → Header
header_or_empty none = []
header_or_empty (some h) = h

-- bp.responses, each read by Bytes(): reading a nil buffer panics.
unfoldable pub collect : List (Option String) → Result (List String)
collect [] = ok []
collect (none ∷ rs) = panic
collect (some r ∷ rs) = elim (collect rs) [
  | ok bodies ↦ ok (r ∷ bodies)
  | err e ↦ err e
  | panic ↦ panic
]

-- The writer before WriteHeader, at an error or a panic.
abbrev pub unwritten : Header → ResponseWriter
unwritten w = record { header = w; status = none; body = "" }

-- The JSON array of the responses, or the error of json.Marshal.
unfoldable pub serve_array : Option String → Header → ResponseWriter × Result (Unit {0})
serve_array none w = (unwritten w, err (failure "json"))
serve_array (some res) w = (record { header = w; status = some 200; body = res }, ok tt)

module _ (ext : External) where
  unfoldable pub serve_collected :
      Result (List String) → Header → ResponseWriter × Result (Unit {0})
  unfolding serve_array
  serve_collected (ok bodies) w = serve_array (ext.marshal_raw_messages bodies) w
  serve_collected (err e) w = (unwritten w, err e)
  serve_collected panic w = (unwritten w, panic)

  -- What follows the wait for all goroutines; `w` is the header of the batch's writer, of which
  -- nothing else was used before.
  unfoldable pub serve : ℕ → BatchProcessor → Header → ResponseWriter × Result (Unit {0})
  unfolding set_all cache_hit_value serve_collected
  serve requests bp w =
      let w' =
        header_set (set_all (header_or_empty bp.header) w) cache_header_key
          (cache_hit_value requests bp.cache_hits) in
      if not (bp.status == 200)
      then (record { header = w'; status = some bp.status; body = "" }, ok tt)
      else serve_collected (collect bp.responses) w'

  -- RequestAndServe, under the interleaving that happens.
  unfoldable pub request_and_serve :
      List SubRequest → List (ℕ × Action) → Header → ResponseWriter × Result (Unit {0})
  request_and_serve subs trace w =
      serve (length subs) (run trace (new_batch_processor (length subs))) w
