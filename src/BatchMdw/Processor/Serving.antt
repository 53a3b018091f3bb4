-- ===== src/BatchMdw/Processor/Serving.antt =====
-- What a batch is answered with: all sub-requests succeed, one has an error, one panics.
use kava_proxy_service.Base.{
  ℕ, ◌+◌, ◌<◌, String, List, [], ◌∷◌, map, true, false, ◌≡◌, ◌≢◌, refl, ap, ◌∙◌, if◌then◌else◌,
  length, arith, Bool-cases, inl, inr, All, Any, none, some, ok, panic, eq_refl,
}
use kava_proxy_service.External.{External}
use kava_proxy_service.Http.{Header, header_get, get-set, canonical}
use kava_proxy_service.BatchMdw.FakeWriter.{new_fake_response_writer}
use kava_proxy_service.BatchMdw.Processor.{
  BatchProcessor, SubRequest, Action, run, writer_of, new_batch_processor, IsInterleaving,
  is_cache_hit_headers, request_and_serve, serve, serve_collected, serve_array, collect,
  cache_hit_value, cache_header_key,
}
use kava_proxy_service.BatchMdw.Processor.Interleaving.{outcome, responses_in_order}
use kava_proxy_service.BatchMdw.Processor.Sums.{weight_all, weight_of_run}
use kava_proxy_service.BatchMdw.Processor.Counts.{
  error_weight, status_weight, hit_weight, cache_hits-run, status-run_quiet, status-run_absent,
  calls_no_200, weight-goroutine, count_status, weight_statuses, weight_errors, weight_no_hits,
}

-- The handler ended with status 200 throughout, and did not panic.
abbrev pub Succeeds : SubRequest → Type 0
Succeeds sub = ((writer_of sub).error_statuses ≡ []) × (sub.panics ≡ false)

-- The handler wrote an error status.
abbrev pub Fails : SubRequest → Type 0
Fails sub = (writer_of sub).error_statuses ≢ []

-- The cache hits among sub-requests.
abbrev pub hits : List SubRequest → ℕ
hits [] = 0
hits (sub ∷ subs) = (if is_cache_hit_headers (writer_of sub).header then 1 else 0) + hits subs

no_errors :
    (subs : List SubRequest)
    → All (λ sub. (writer_of sub).error_statuses ≡ []) subs
    → weight_all error_weight subs ≡ 0
no_errors [] h = refl
no_errors (sub ∷ subs) (e, h) = ground (
  arith,
  no_errors subs h,
  weight-goroutine error_weight sub,
  weight_errors (writer_of sub).error_statuses,
  ap length e,
)

count_hits : (subs : List SubRequest) → All Succeeds subs → weight_all hit_weight subs ≡ hits subs
count_hits [] h = refl
count_hits (sub ∷ subs) ((_, e), h) = ground (
  arith,
  count_hits subs h,
  weight-goroutine hit_weight sub,
  weight_no_hits (writer_of sub).error_statuses,
  e,
)

never_200 : (subs : List SubRequest) → weight_all (status_weight 200) subs ≡ 0
never_200 [] = refl
never_200 (sub ∷ subs) = ground (
  arith,
  never_200 subs,
  weight-goroutine (status_weight 200) sub,
  weight_statuses 200 (writer_of sub).error_statuses,
  calls_no_200 sub.writer_calls new_fake_response_writer
      (unfold count_status in unfold new_fake_response_writer in refl),
)

length_positive : (ss : List ℕ) → ss ≢ [] → 0 < length ss
length_positive [] h = absurd (h refl)
length_positive (s ∷ ss) h = omega arith

some_error : (subs : List SubRequest) → Any Fails subs → 0 < weight_all error_weight subs
some_error [] h = elim h [ ]
some_error (sub ∷ subs) (inl e) = omega (
  arith,
  weight-goroutine error_weight sub,
  weight_errors (writer_of sub).error_statuses,
  length_positive (writer_of sub).error_statuses e,
)
some_error (sub ∷ subs) (inr h) = omega (arith, some_error subs h)

outcomes :
    (subs : List SubRequest)
    → All Succeeds subs
    → map outcome subs ≡ map (λ sub. some (writer_of sub).body) subs
outcomes [] h = refl
outcomes (sub ∷ subs) ((_, e), h) = ground (arith, outcomes subs h, e)

collect_all : (bodies : List String) → collect (map some bodies) ≡ ok bodies
unfolding collect
collect_all [] = refl
collect_all (b ∷ bodies) = rw (collect_all bodies) refl

collect_nil :
    (subs : List SubRequest)
    → Any (λ sub. sub.panics ≡ true) subs
    → collect (map outcome subs) ≡ panic
unfolding collect
collect_nil [] h = elim h [ ]
collect_nil (sub ∷ subs) (inl e) = ground (arith, e)
collect_nil (sub ∷ subs) (inr h) =
    let c = collect_nil subs h in
    elim (Bool-cases sub.panics) [ inl e ↦ ground (arith, e) | inr e ↦ ground (arith, e, c) ]

module _ (subs : List SubRequest) (trace : List (ℕ × Action)) (h : IsInterleaving subs trace) where
  -- The processor after the goroutines.
  abbrev after : BatchProcessor
  after = run trace (new_batch_processor (length subs))

  status_quiet : All (λ sub. (writer_of sub).error_statuses ≡ []) subs → after.status ≡ 200
  unfolding new_batch_processor
  status_quiet e =
      status-run_quiet trace _ (weight_of_run error_weight subs trace h ∙ no_errors subs e)

  status_failed : Any Fails subs → after.status ≢ 200
  status_failed f e =
      let a =
        status-run_absent 200 trace _
          (weight_of_run (status_weight 200) subs trace h ∙ never_200 subs) e in
      omega (arith, a.1, weight_of_run error_weight subs trace h, some_error subs f)

  cache_hits_after : All Succeeds subs → after.cache_hits ≡ hits subs
  unfolding new_batch_processor
  cache_hits_after s = omega (
    arith,
    cache_hits-run trace (new_batch_processor (length subs)),
    weight_of_run hit_weight subs trace h,
    count_hits subs s,
  )

All-errors :
    (subs : List SubRequest)
    → All Succeeds subs
    → All (λ sub. (writer_of sub).error_statuses ≡ []) subs
All-errors [] h = tt
All-errors (sub ∷ subs) ((e, _), h) = (e, All-errors subs h)

bodies :
    (subs : List SubRequest)
    → map (λ sub. some (writer_of sub).body) subs
      ≡ map some (map (λ sub. (writer_of sub).body) subs)
bodies [] = refl
bodies (sub ∷ subs) = ap (λ rest. some (writer_of sub).body ∷ rest) (bodies subs)

-- If all sub-requests succeed, and their bodies are marshaled to `res`, then the batch is answered
-- with status 200, the body `res` of the responses in the order of the requests, and a cache
-- header for the number of hits, whatever the interleaving of the goroutines.
pub batch_of_successes :
    (ext : External) (subs : List SubRequest) (trace : List (ℕ × Action)) (w : Header)
    (res : String)
    → IsInterleaving subs trace
    → All Succeeds subs
    → ext.marshal_raw_messages (map (λ sub. (writer_of sub).body) subs) ≡ some res
    → let out = request_and_serve ext subs trace w in
      (out.0.status ≡ some 200)
      × (out.0.body ≡ res)
      × (out.1 ≡ ok tt)
      × (header_get out.0.header cache_header_key ≡ cache_hit_value (length subs) (hits subs))
unfolding request_and_serve serve serve_collected serve_array
batch_of_successes ext subs trace w res h s m =
    rw
      (
        status_quiet subs trace h (All-errors subs s),
        cache_hits_after subs trace h s,
        responses_in_order subs trace h,
        outcomes subs s,
        bodies subs,
        collect_all (map (λ sub. (writer_of sub).body) subs),
        m,
        get-set,
        eq_refl (canonical cache_header_key),
      )
      (refl, refl, refl, refl)

error_served :
    (ext : External) (n : ℕ) (bp : BatchProcessor) (w : Header)
    → bp.status ≢ 200
    → let out = serve ext n bp w in
      (out.0.status ≡ some bp.status) × (out.0.body ≡ "") × (out.1 ≡ ok tt)
unfolding serve
error_served ext n bp w ne = ground (arith, ne)

-- If some sub-request writes an error status, then the batch is answered with an error status and
-- an empty body, whatever the interleaving of the goroutines.
pub batch_with_error :
    (ext : External) (subs : List SubRequest) (trace : List (ℕ × Action)) (w : Header)
    → IsInterleaving subs trace
    → Any Fails subs
    → let out = request_and_serve ext subs trace w in
      (status : ℕ) × (status ≢ 200)
      × (out.0.status ≡ some status)
      × (out.0.body ≡ "")
      × (out.1 ≡ ok tt)
unfolding request_and_serve serve
batch_with_error ext subs trace w h f =
    let n = status_failed subs trace h f in
    let e = error_served ext (length subs) (after subs trace h) w n in (_, n, e.0, e.1, e.2)

-- If no sub-request writes an error status and one panics, then RequestAndServe panics and writes no
-- status: the recovered panic of the sub-request leaves a nil buffer, which is read.
pub batch_with_panic :
    (ext : External) (subs : List SubRequest) (trace : List (ℕ × Action)) (w : Header)
    → IsInterleaving subs trace
    → All (λ sub. (writer_of sub).error_statuses ≡ []) subs
    → Any (λ sub. sub.panics ≡ true) subs
    → let out = request_and_serve ext subs trace w in (out.1 ≡ panic) × (out.0.status ≡ none)
unfolding request_and_serve serve serve_collected
batch_with_panic ext subs trace w h e p =
    rw (status_quiet subs trace h e, responses_in_order subs trace h, collect_nil subs p)
      (refl, refl)
