-- ===== src/BatchMdw/Processor/Counts.antt =====
-- The cache hits and the status that an interleaving leaves, and the weights that count them.
use kava_proxy_service.Base.{
  ℕ, ◌+◌, List, [], ◌∷◌, ◌++◌, map, ◌≡◌, refl, ◌∙◌, ◌==◌, if◌then◌else◌, length, arith, Bool-cases,
  inl, inr,
}
use kava_proxy_service.Http.{WriterCall, write, write_header, update_header}
use kava_proxy_service.BatchMdw.FakeWriter.{FakeResponseWriter, call, calls}
use kava_proxy_service.BatchMdw.Processor.{
  BatchProcessor, SubRequest, Action, goroutine, run, writer_of, err_status, respond, headers,
  apply_headers, set_response, set_err_status, is_cache_hit_headers,
}
use kava_proxy_service.BatchMdw.Processor.Sums.{weight, weight_run, weight-append}

abbrev pub error_weight : Action → ℕ
error_weight (err_status _) = 1
error_weight (respond _) = 0
error_weight (headers _) = 0

abbrev pub status_weight : ℕ → Action → ℕ
status_weight v (err_status s) = if s == v then 1 else 0
status_weight v (respond _) = 0
status_weight v (headers _) = 0

abbrev pub hit_weight : Action → ℕ
hit_weight (err_status _) = 0
hit_weight (respond _) = 0
hit_weight (headers h) = if is_cache_hit_headers h then 1 else 0

pub cache_hits-run :
    (trace : List (ℕ × Action)) (bp : BatchProcessor)
    → (run trace bp).cache_hits ≡ bp.cache_hits + weight_run hit_weight trace
unfolding run apply_headers set_response set_err_status
cache_hits-run [] bp = omega arith
cache_hits-run ((j, err_status s) ∷ trace) bp =
    ground (arith, cache_hits-run trace (set_err_status s bp))
cache_hits-run ((j, respond r) ∷ trace) bp =
    ground (arith, cache_hits-run trace (set_response j r bp))
cache_hits-run ((j, headers h) ∷ trace) bp =
    ground (arith, cache_hits-run trace (apply_headers h bp))

pub status-run_quiet :
    (trace : List (ℕ × Action)) (bp : BatchProcessor)
    → weight_run error_weight trace ≡ 0
    → (run trace bp).status ≡ bp.status
unfolding run
status-run_quiet [] bp h = refl
status-run_quiet ((j, err_status s) ∷ trace) bp h = absurd (omega (arith, h))
status-run_quiet ((j, respond r) ∷ trace) bp h =
    status-run_quiet trace (set_response j r bp) (omega (arith, h))
status-run_quiet ((j, headers hd) ∷ trace) bp h =
    status-run_quiet trace (apply_headers hd bp) (omega (arith, h))

-- A status that no error has is left only by a run without errors.
pub status-run_absent :
    (v : ℕ) (trace : List (ℕ × Action)) (bp : BatchProcessor)
    → weight_run (status_weight v) trace ≡ 0
    → (run trace bp).status ≡ v
    → (bp.status ≡ v) × (weight_run error_weight trace ≡ 0)
unfolding run set_response apply_headers
status-run_absent v [] bp h e = (e, refl)
status-run_absent v ((j, err_status s) ∷ trace) bp h e =
    let ih = status-run_absent v trace (set_err_status s bp) (ground (arith, h)) e in
    absurd (unfold set_err_status in ground (arith, h, ih.0))
status-run_absent v ((j, respond r) ∷ trace) bp h e =
    ground (arith, status-run_absent v trace (set_response j r bp) (omega (arith, h)) e)
status-run_absent v ((j, headers hd) ∷ trace) bp h e =
    ground (arith, status-run_absent v trace (apply_headers hd bp) (omega (arith, h)) e)

-- No error of a writer has status 200.
unfoldable pub count_status : ℕ → List ℕ → ℕ
count_status v [] = 0
count_status v (s ∷ ss) = (if s == v then 1 else 0) + count_status v ss

count_status-append :
    (v : ℕ) (ss ts : List ℕ) → count_status v (ss ++ ts) ≡ count_status v ss + count_status v ts
unfolding count_status
count_status-append v [] ts = omega arith
count_status-append v (s ∷ ss) ts = omega (arith, count_status-append v ss ts)

pub calls_no_200 :
    (cs : List WriterCall) (w : FakeResponseWriter)
    → count_status 200 w.error_statuses ≡ 0
    → count_status 200 (calls w cs).error_statuses ≡ 0
unfolding calls
calls_no_200 [] w h = h
calls_no_200 (write b ∷ cs) w h = calls_no_200 cs (call w (write b)) (unfold call in h)
calls_no_200 (update_header f ∷ cs) w h =
    calls_no_200 cs (call w (update_header f)) (unfold call in h)
calls_no_200 (write_header s ∷ cs) w h =
    calls_no_200 cs (call w (write_header s)) (elim (Bool-cases (s == 200)) [
      | inl e ↦ unfold call in rw e h
      | inr e ↦
          unfold call in
          unfold count_status in
          rw e (count_status-append 200 w.error_statuses (s ∷ []) ∙ rw (h, e) refl)
    ])

pub weight_statuses :
    (v : ℕ) (ss : List ℕ) → weight (status_weight v) (map err_status ss) ≡ count_status v ss
unfolding count_status
weight_statuses v [] = refl
weight_statuses v (s ∷ ss) = omega (arith, weight_statuses v ss)

pub weight_errors : (ss : List ℕ) → weight error_weight (map err_status ss) ≡ length ss
weight_errors [] = refl
weight_errors (s ∷ ss) = omega (arith, weight_errors ss)

pub weight_no_hits : (ss : List ℕ) → weight hit_weight (map err_status ss) ≡ 0
weight_no_hits [] = refl
weight_no_hits (s ∷ ss) = omega (arith, weight_no_hits ss)

pub weight-goroutine :
    (w : Action → ℕ) (sub : SubRequest)
    → weight w (goroutine sub)
      ≡ weight w (map err_status (writer_of sub).error_statuses)
        + (if sub.panics
            then 0
            else w (respond (writer_of sub).body) + w (headers (writer_of sub).header))
unfolding goroutine
weight-goroutine w sub =
    weight-append w (map err_status (writer_of sub).error_statuses) _
    ∙ elim (Bool-cases sub.panics) [ inl e ↦ ground arith | inr e ↦ ground arith ]
