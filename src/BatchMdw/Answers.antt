-- ===== src/BatchMdw/Answers.antt =====
-- What a batch of requests is answered with by its middleware.
use kava_proxy_service.Base.{
  ℕ, zero, suc, ◌≤◌, String, List, [], ◌∷◌, Option, some, true, Result, ok, err, panic, length, map,
  length-map, ◌≡◌, refl, ap, ◌∙◌, arith, All, get_elem?,
}
use kava_proxy_service.External.{External, Envelope}
use kava_proxy_service.Http.{Header, Request, ResponseWriter}
use kava_proxy_service.BatchMdw.Processor.{
  SubRequest, Action, writer_of, request_and_serve, IsInterleaving,
}
use kava_proxy_service.BatchMdw.Processor.Serving.{Succeeds, batch_of_successes}
use kava_proxy_service.BatchMdw.Middleware.{
  batch_processing_middleware, process_batch, sub_requests, sub_request, batch_or_empty, drop_error,
}

-- Each request of the batch can be made.
abbrev pub IsMade : External → Request → Option Envelope → Type 0
IsMade ext r single = (body : String) × (ext.marshal_request single ≡ some body)

module _ (ext : External) (r : Request) (url_ok : ext.new_request_ok r.method r.url ≡ true) where
  sub_requests_cons :
      (x : Option Envelope) (batch : List (Option Envelope)) (body : String)
      → ext.marshal_request x ≡ some body
      → sub_requests ext r (x ∷ batch) ≡ sub_request r x body ∷ sub_requests ext r batch
  unfolding sub_requests
  sub_requests_cons x batch body m = rw (sub_requests, m, url_ok) refl

  sub_requests_at :
      (batch : List (Option Envelope)) (i : ℕ) (single : Option Envelope)
      → All (IsMade ext r) batch
      → get_elem? batch i ≡ some single
      → (body : String) × (ext.marshal_request single ≡ some body)
        × (get_elem? (sub_requests ext r batch) i ≡ some (sub_request r single body))
  sub_requests_at [] i single h e = cc e
  sub_requests_at (x ∷ batch) zero single ((body, m), h) e =
      (body, cc (m, e), ap (λ l. get_elem? l 0) (sub_requests_cons x batch body m) ∙ cc e)
  sub_requests_at (x ∷ batch) (suc i) single ((body, m), h) e =
      let (b, mb, at) = sub_requests_at batch i single h e in
      (b, mb, ap (λ l. get_elem? l (suc i)) (sub_requests_cons x batch body m) ∙ at)

  length-sub_requests :
      (batch : List (Option Envelope))
      → All (IsMade ext r) batch
      → length (sub_requests ext r batch) ≡ length batch
  length-sub_requests [] h = unfold sub_requests in refl
  length-sub_requests (x ∷ batch) ((body, m), h) =
      ap length (sub_requests_cons x batch body m) ∙ ap suc (length-sub_requests batch h)

drop_error_ok :
    (out : ResponseWriter × Result (Unit {0}))
    → out.1 ≡ ok tt
    → ((drop_error out).0 ≡ out.0) × ((drop_error out).1 ≡ ok tt)
drop_error_ok (w, ok u) e = (refl, refl)
drop_error_ok (w, err _) e = cc e
drop_error_ok (w, panic) e = cc e

pub within :
    (ext : External) (maximum : ℕ) (handle : Request → SubRequest) (trace : List (ℕ × Action))
    (r : Request) (batch : List (Option Envelope)) (w : Header)
    → length batch ≤ maximum
    → process_batch ext maximum handle trace r batch w
      ≡ drop_error (request_and_serve ext (map handle (sub_requests ext r batch)) trace w)
unfolding process_batch
within ext maximum handle trace r batch w le = ground (arith, le)

get_elem?-map :
    (f : Request → SubRequest) (rs : List Request) (i : ℕ) {q : Request}
    → get_elem? rs i ≡ some q
    → get_elem? (map f rs) i ≡ some (f q)
get_elem?-map f [] i e = cc e
get_elem?-map f (r ∷ rs) zero e = cc e
get_elem?-map f (r ∷ rs) (suc i) e = get_elem?-map f rs i e

-- A batch within the maximum, of which all requests can be made and are handled with success, is
-- answered with status 200 and the JSON array of the responses: as many as there are requests,
-- and each request's response, or null's, is at its index, whatever the interleaving.
pub batch_answered :
    (ext : External) (maximum : ℕ) (handle : Request → SubRequest) (trace : List (ℕ × Action))
    (r : Request) (w : Header) (batch : List (Option Envelope)) (res : String)
    → r.context.decoded_batch ≡ some batch
    → length batch ≤ maximum
    → ext.new_request_ok r.method r.url ≡ true
    → All (IsMade ext r) batch
    → let subs = map handle (sub_requests ext r batch) in
      IsInterleaving subs trace
      → All Succeeds subs
      → ext.marshal_raw_messages (map (λ sub. (writer_of sub).body) subs) ≡ some res
      → let out = batch_processing_middleware ext maximum handle trace r w in
        (out.0.status ≡ some 200)
        × (out.0.body ≡ res)
        × (out.1 ≡ ok tt)
        × (length subs ≡ length batch)
        × ((i : ℕ) (single : Option Envelope)
            → get_elem? batch i ≡ some single
            → (body : String) × (ext.marshal_request single ≡ some body)
              × (get_elem? subs i ≡ some (handle (sub_request r single body))))
unfolding batch_processing_middleware
batch_answered ext maximum handle trace r w batch res d le ok_url made inter succ m =
    let subs = map handle (sub_requests ext r batch) in
    let served = batch_of_successes ext subs trace w res inter succ m in
    let dropped = drop_error_ok _ served.2 in
    let same =
      ap (λ o. process_batch ext maximum handle trace r (batch_or_empty o) w) d
      ∙ within ext maximum handle trace r batch w le in
    (
      ap (λ out. out.0.status) same ∙ (ap (λ v. v.status) dropped.0 ∙ served.0),
      ap (λ out. out.0.body) same ∙ (ap (λ v. v.body) dropped.0 ∙ served.1),
      ap (λ out. out.1) same ∙ dropped.1,
      length-map handle (sub_requests ext r batch) ∙ length-sub_requests ext r ok_url batch made,
      λ i single e.
          let (body, mb, at) = sub_requests_at ext r ok_url batch i single made e in
          (body, mb, get_elem?-map handle (sub_requests ext r batch) i at),
    )
