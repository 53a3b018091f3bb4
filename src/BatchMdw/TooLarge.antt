-- ===== src/BatchMdw/TooLarge.antt =====
-- The size of a batch that its middleware turns away.
use native.Mathlib.Decide.{dec_lt}
use kava_proxy_service.Base.{
  ℕ, ◌<◌, ◌≤◌, List, [], ◌∷◌, Option, none, some, Bool, true, false, not, ◌==◌, if◌then◌else◌,
  Result, ok, err, panic, length, map, ◌≡◌, ◌≢◌, ◌↔◌, refl, sym, ap, ◌∙◌, arith, All, String,
}
use kava_proxy_service.External.{External, Envelope}
use kava_proxy_service.Http.{Header, Request, ResponseWriter}
use kava_proxy_service.BatchMdw.Processor.{
  BatchProcessor, SubRequest, Action, writer_of, run, new_batch_processor, request_and_serve, serve,
  serve_collected, serve_array, collect, IsInterleaving,
}
use kava_proxy_service.BatchMdw.Processor.Sums.{weight_all, weight_of_run}
use kava_proxy_service.BatchMdw.Processor.Counts.{
  status_weight, status-run_absent, weight-goroutine, count_status, weight_statuses,
}
use kava_proxy_service.BatchMdw.Answers.{within}
use kava_proxy_service.BatchMdw.Middleware.{
  batch_processing_middleware, process_batch, sub_requests, batch_or_empty, drop_error,
}

-- The handler of a sub-request does not itself answer with status 413.
abbrev pub IsNever413 : SubRequest → Type 0
IsNever413 sub = All (λ status. status ≢ 413) (writer_of sub).error_statuses

count_none : (ss : List ℕ) → All (λ status. status ≢ 413) ss → count_status 413 ss ≡ 0
unfolding count_status
count_none [] h = refl
count_none (s ∷ ss) (ne, h) = ground (arith, count_none ss h, ne)

none_413 : (subs : List SubRequest) → All IsNever413 subs → weight_all (status_weight 413) subs ≡ 0
none_413 [] h = refl
none_413 (sub ∷ subs) (e, h) = ground (
  arith,
  none_413 subs h,
  weight-goroutine (status_weight 413) sub,
  weight_statuses 413 (writer_of sub).error_statuses,
  count_none (writer_of sub).error_statuses e,
)

other_status : (n : ℕ) → n ≢ 413 → some n ≢ some 413
other_status n ne e = ne (ap (λ o. value_or n o) e)
  where
    value_or : ℕ → Option ℕ → ℕ
    value_or d none = d
    value_or d (some x) = x

serve_array-status : (res : Option String) (w : Header) → (serve_array res w).0.status ≢ some 413
unfolding serve_array
serve_array-status none w e = cc e
serve_array-status (some res) w e = other_status 200 (omega arith) e

either :
    (x y : ResponseWriter × Result (Unit {0})) (b : Bool)
    → x.0.status ≢ some 413
    → y.0.status ≢ some 413
    → (if b then x else y).0.status ≢ some 413
either x y true p q = p
either x y false p q = q

module _ (ext : External) where
  serve_collected-status :
      (bodies : Result (List String)) (w : Header)
      → (serve_collected ext bodies w).0.status ≢ some 413
  unfolding serve_collected
  serve_collected-status (ok bodies) w e = serve_array-status (ext.marshal_raw_messages bodies) w e
  serve_collected-status (err x) w e = cc e
  serve_collected-status panic w e = cc e

  serve-status :
      (n : ℕ) (bp : BatchProcessor) (w : Header)
      → bp.status ≢ 413
      → (serve ext n bp w).0.status ≢ some 413
  unfolding serve
  serve-status n bp w ne =
      either _ _ (not (bp.status == 200)) (other_status bp.status ne)
        (serve_collected-status (collect bp.responses) _)

  served-status :
      (subs : List SubRequest) (trace : List (ℕ × Action)) (w : Header)
      → IsInterleaving subs trace
      → All IsNever413 subs
      → (request_and_serve ext subs trace w).0.status ≢ some 413
  unfolding request_and_serve new_batch_processor
  served-status subs trace w inter never =
      serve-status (length subs) (run trace (new_batch_processor (length subs))) w (λ e.
        let a =
          status-run_absent 413 trace (new_batch_processor (length subs))
            (weight_of_run (status_weight 413) subs trace inter ∙ none_413 subs never) e in
        other_status 200 (omega arith) (ap some a.0))

drop_error-status :
    (out : ResponseWriter × Result (Unit {0})) → (drop_error out).0.status ≡ out.0.status
drop_error-status (w, ok u) = refl
drop_error-status (w, err e) = refl
drop_error-status (w, panic) = refl

above :
    (ext : External) (maximum : ℕ) (handle : Request → SubRequest) (trace : List (ℕ × Action))
    (r : Request) (batch : List (Option Envelope)) (w : Header)
    → maximum < length batch
    → (process_batch ext maximum handle trace r batch w).0.status ≡ some 413
unfolding process_batch
above ext maximum handle trace r batch w lt = ground (arith, lt)

-- If the handler of single requests never answers with status 413 itself, then whatever the
-- interleaving of the goroutines a batch is answered with status 413 exactly if it has more requests
-- than the maximum.
pub too_large_iff :
    (ext : External) (maximum : ℕ) (handle : Request → SubRequest) (trace : List (ℕ × Action))
    (r : Request) (w : Header) (batch : List (Option Envelope))
    → r.context.decoded_batch ≡ some batch
    → let subs = map handle (sub_requests ext r batch) in
      IsInterleaving subs trace
      → All IsNever413 subs
      → ((batch_processing_middleware ext maximum handle trace r w).0.status ≡ some 413)
        ↔ (maximum < length batch)
unfolding batch_processing_middleware
too_large_iff ext maximum handle trace r w batch d inter never =
    let same =
      ap (λ o. (process_batch ext maximum handle trace r (batch_or_empty o) w).0.status) d in
    (
      λ e. elim (dec_lt maximum (length batch)) [
        | yes lt ↦ lt
        | no ge ↦
            let le : length batch ≤ maximum = omega (arith, ge) in
            absurd (
              served-status ext (map handle (sub_requests ext r batch)) trace w inter never (
                sym (
                  same
                  ∙ ap (λ out. out.0.status) (within ext maximum handle trace r batch w le)
                  ∙ drop_error-status _)
                ∙ e))
      ],
      λ lt. same ∙ above ext maximum handle trace r batch w lt,
    )
