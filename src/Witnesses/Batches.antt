-- ===== src/Witnesses/Batches.antt =====
-- Examples for the package batchmdw: two requests, answered in the other order.
use kava_proxy_service.Base.{
  ℕ, zero, suc, String, List, [], ◌∷◌, map, Option, none, some, Bool, true, false, Result, ok, err,
  panic, ◌≡◌, ◌≢◌, ◌⊎◌, ◌↔◌, inl, inr, refl, arith, All, Any, length, get_elem?, ◌<◌, replicate,
}
use kava_proxy_service.External.{Envelope}
use kava_proxy_service.Http.{header_get, Request, write, write_header, update_header}
use kava_proxy_service.BatchMdw.FakeWriter.{calls, call, new_fake_response_writer}
use kava_proxy_service.BatchMdw.Processor.{
  SubRequest, Action, respond, headers, err_status, IsInterleaving, actions_of, goroutine_at,
  request_and_serve, cache_header_key, cache_hit_value, new_batch_processor, run,
}
use kava_proxy_service.BatchMdw.Processor.Interleaving.{outcome, responses_in_order}
use kava_proxy_service.BatchMdw.Processor.Serving.{
  Fails, hits, batch_of_successes, batch_with_error, batch_with_panic,
}
use kava_proxy_service.BatchMdw.Processor.CacheHeader.{TellsOf, cache_header_of_batch}
use kava_proxy_service.BatchMdw.Middleware.{batch_processing_middleware, sub_requests, sub_request}
use kava_proxy_service.BatchMdw.Answers.{batch_answered}
use kava_proxy_service.BatchMdw.TooLarge.{IsNever413, too_large_iff}
use kava_proxy_service.Witnesses.Samples.{sample_external, sample_request, block_request}

abbrev hit_sub : SubRequest
hit_sub = record {
  writer_calls = update_header (λ _. (cache_header_key, "HIT" ∷ []) ∷ []) ∷ write "1" ∷ [];
  panics = false;
}

abbrev plain_sub : SubRequest
plain_sub = record { writer_calls = write "2" ∷ []; panics = false }

abbrev failed_sub : SubRequest
failed_sub = record { writer_calls = write_header 502 ∷ write "3" ∷ []; panics = false }

abbrev panicked_sub : SubRequest
panicked_sub = record { writer_calls = []; panics = true }

abbrev two_subs : List SubRequest
two_subs = hit_sub ∷ plain_sub ∷ []

-- The second request is done first.
abbrev crossed : List (ℕ × Action)
crossed =
    (1, respond "2")
    ∷ (0, respond "1")
    ∷ (1, headers [])
    ∷ (0, headers ((cache_header_key, "HIT" ∷ []) ∷ []))
    ∷ []

crossed-IsInterleaving : IsInterleaving two_subs crossed
unfolding goroutine_at actions_of calls new_fake_response_writer
crossed-IsInterleaving zero = refl
crossed-IsInterleaving (suc zero) = refl
crossed-IsInterleaving (suc (suc i)) = ground arith

in_order_example : (run crossed (new_batch_processor 2)).responses ≡ map outcome two_subs
in_order_example = responses_in_order two_subs crossed crossed-IsInterleaving

success_example :
    let out = request_and_serve sample_external two_subs crossed [] in
    (out.0.status ≡ some 200)
    × (out.0.body ≡ "1,2")
    × (out.1 ≡ ok tt)
    × (header_get out.0.header cache_header_key ≡ cache_hit_value 2 (hits two_subs))
unfolding calls new_fake_response_writer kava_proxy_service.Base.join
success_example =
    batch_of_successes sample_external two_subs crossed [] "1,2" crossed-IsInterleaving
      ((refl, refl), ((refl, refl), tt)) refl

abbrev failing : List SubRequest
failing = failed_sub ∷ []

abbrev failing_trace : List (ℕ × Action)
failing_trace = (0, err_status 502) ∷ (0, respond "3") ∷ (0, headers []) ∷ []

failing-IsInterleaving : IsInterleaving failing failing_trace
unfolding goroutine_at actions_of calls call new_fake_response_writer
failing-IsInterleaving zero = refl
failing-IsInterleaving (suc i) = ground arith

failed-Fails : Fails failed_sub
unfolding calls call new_fake_response_writer
failed-Fails e = cc e

error_example :
    let out = request_and_serve sample_external failing failing_trace [] in
    (status : ℕ) × (status ≢ 200)
    × (out.0.status ≡ some status)
    × (out.0.body ≡ "")
    × (out.1 ≡ ok tt)
error_example =
    batch_with_error sample_external failing failing_trace [] failing-IsInterleaving
      (inl failed-Fails)

abbrev panicking : List SubRequest
panicking = panicked_sub ∷ []

panicking-IsInterleaving : IsInterleaving panicking []
unfolding goroutine_at actions_of calls call new_fake_response_writer
panicking-IsInterleaving zero = refl
panicking-IsInterleaving (suc i) = refl

panic_example :
    let out = request_and_serve sample_external panicking [] [] in
    (out.1 ≡ panic) × (out.0.status ≡ none)
unfolding calls new_fake_response_writer
panic_example =
    batch_with_panic sample_external panicking [] [] panicking-IsInterleaving (refl, tt) (inl refl)

header_example :
    let header = (request_and_serve sample_external two_subs crossed []).0.header in
    TellsOf (header_get header "X-Kava-Proxy-Cache-Status") two_subs
unfolding calls new_fake_response_writer kava_proxy_service.Base.join
header_example =
    cache_header_of_batch sample_external two_subs crossed [] "1,2" crossed-IsInterleaving
      ((refl, refl), ((refl, refl), tt)) refl

abbrev batch_request : Request
batch_request = record sample_request {
  context = record sample_request.context { decoded_batch = some (some block_request ∷ none ∷ []) };
}

abbrev answer_two : Request → SubRequest
answer_two r = plain_sub

abbrev answer_trace : List (ℕ × Action)
answer_trace = (1, respond "2") ∷ (0, respond "2") ∷ (1, headers []) ∷ (0, headers []) ∷ []

answer-IsInterleaving :
    IsInterleaving
      (map answer_two (sub_requests sample_external batch_request (some block_request ∷ none ∷ [])))
      answer_trace
unfolding goroutine_at actions_of calls call new_fake_response_writer sub_requests
answer-IsInterleaving zero = refl
answer-IsInterleaving (suc zero) = refl
answer-IsInterleaving (suc (suc i)) = ground arith

never_413 :
    All IsNever413
      (map answer_two (sub_requests sample_external batch_request (some block_request ∷ none ∷ [])))
unfolding calls call new_fake_response_writer sub_requests
never_413 = (tt, (tt, tt))

too_large_example :
    ((batch_processing_middleware sample_external 1 answer_two answer_trace batch_request
        []).0.status
      ≡ some 413)
    ↔ (1 < 2)
too_large_example =
    too_large_iff sample_external 1 answer_two answer_trace batch_request []
      (some block_request ∷ none ∷ []) refl answer-IsInterleaving never_413

answered_example :
    let subs =
      map answer_two
        (sub_requests sample_external batch_request (some block_request ∷ none ∷ [])) in
    let out =
      batch_processing_middleware sample_external 2 answer_two answer_trace batch_request [] in
    (out.0.status ≡ some 200)
    × (out.0.body ≡ "2,2")
    × (out.1 ≡ ok tt)
    × (length subs ≡ 2)
    × ((i : ℕ) (single : Option Envelope)
        → get_elem? (some block_request ∷ none ∷ []) i ≡ some single
        → (body : String) × (sample_external.marshal_request single ≡ some body)
          × (get_elem? subs i ≡ some (answer_two (sub_request batch_request single body))))
unfolding sub_requests calls new_fake_response_writer kava_proxy_service.Base.join
answered_example =
    batch_answered sample_external 2 answer_two answer_trace batch_request []
      (some block_request ∷ none ∷ []) "2,2" refl (omega arith) refl
      (("{}", refl), (("{}", refl), tt)) answer-IsInterleaving ((refl, refl), ((refl, refl), tt))
      refl
