-- ===== src/Service/Client/Status.antt =====
-- The client reads the status of the database that the handler serves.
use text.Mathlib.TextLemmas.{nil-append}
use kava_proxy_service.Base.{
  ℕ, String, ◌+++◌, [], Option, none, some, Bool, true, false, Error, ok, ℤ, ◌≡◌, ◌⊎◌, inr, refl,
  ap, ◌∙◌,
}
use kava_proxy_service.Http.{ResponseWriter, server_writer, header_set}
use kava_proxy_service.Clients.Database.{MetricsDatabase}
use kava_proxy_service.CacheMdw.ServiceCache.{ServiceCache}
use kava_proxy_service.Service.Endpoints.{
  DatabaseStatusResponse, marshal_json_response, write_encoded, or_error, send_status, with_count,
  create_database_status_handler,
}
use kava_proxy_service.Service.Client.{
  database_status_path, ProxyServiceClient, ClientError, ClientResponse, Transport, with_response,
  with_request, with_body, call_request, debugged, decoded, client_call, create_request,
  get_database_status,
}

-- The writer of a request that is not answered yet.
abbrev pub fresh_writer : ResponseWriter
fresh_writer = record { header = []; status = none; body = "" }

-- The status that an unset status stands for.
abbrev pub sent_status : Option ℕ → ℕ
sent_status none = 200
sent_status (some status) = status

-- The response that a writer stands for, read without an error.
abbrev pub sent : ResponseWriter → ClientResponse
sent w = record { status_code = sent_status w.status; body = w.body; read_error = none }

-- The status that the results of the database's two queries stand for.
abbrev pub status_of : ℤ → String → DatabaseStatusResponse
status_of count name = record {
  latest_proxied_request_metric_partition_table_name = name;
  total_proxied_request_metric_partitions = count;
}

debugged-none :
    {N : Type 0} (t : Transport N) (debug : Bool) (url : String)
    (result : ClientError ⊎ DatabaseStatusResponse)
    → debugged t debug url none result ≡ result
debugged-none t true url result = refl
debugged-none t false url result = refl

module _ {D S : Type 0} (error_text : Error → String) (db : MetricsDatabase D)
    (cache : ServiceCache S) (marshal_status : DatabaseStatusResponse → Option String) (d : D)
    (store : S) where
  -- What /status/database answers.
  abbrev pub served : ResponseWriter
  served =
      (create_database_status_handler error_text db cache server_writer marshal_status
        (record { database = d; store = store; writer = fresh_writer })).0.writer

  served_status :
      (count : ℤ) (name text : String)
      → (db.count_attached_proxied_request_metric_partitions d).1 ≡ ok count
      → (db.get_last_created_attached_proxied_request_metrics_partition_name
          (db.count_attached_proxied_request_metric_partitions d).0).1
        ≡ ok name
      → marshal_status (status_of count name) ≡ some text
      → sent served ≡ record { status_code = 200; body = text +++ "\n"; read_error = none }
  unfolding create_database_status_handler with_count send_status marshal_json_response
  served_status count name text c n m =
      let counted = (db.count_attached_proxied_request_metric_partitions d).0 in
      let named = (db.get_last_created_attached_proxied_request_metrics_partition_name counted).0 in
      ap
        (λ r.
          sent
            (or_error error_text db cache server_writer marshal_status
              (with_count error_text db cache server_writer marshal_status)
              (record { database = counted; store = store; writer = fresh_writer }) r).0.writer)
        c
      ∙ ap
          (λ r.
            sent
              (or_error error_text db cache server_writer marshal_status
                (send_status error_text db cache server_writer marshal_status count)
                (record { database = named; store = store; writer = fresh_writer }) r).0.writer)
          n
      ∙ ap
          (λ r.
            sent
              (write_encoded error_text db cache server_writer marshal_status r (record {
                database = named;
                store = store;
                writer = record {
                  header = header_set [] "Content-Type" "application/json";
                  status = some 200;
                  body = "";
                };
              })).0.writer)
          m
      ∙ ap (λ b. record { status_code = 200; body = b; read_error = none })
          (nil-append (text +++ "\n"))

  -- If the two queries of the database succeed and its status is encoded, the client that gets what
  -- /status/database serves returns the count of the partitions and the name of the last one. The
  -- hypotheses on the transport say that a request is made and is answered by the handler, and that
  -- the JSON of the status with a line break is decoded to it.
  pub status_round_trip :
      {N : Type 0} (t : Transport N) (client : ProxyServiceClient) (n n' : N) (count : ℤ)
      (name text body : String)
      → (db.count_attached_proxied_request_metric_partitions d).1 ≡ ok count
      → (db.get_last_created_attached_proxied_request_metrics_partition_name
          (db.count_attached_proxied_request_metric_partitions d).0).1
        ≡ ok name
      → marshal_status (status_of count name) ≡ some text
      → let url = client.config.proxy_service_hostname +++ database_status_path in
        t.encode_nil ≡ some body
        → t.new_request_error "GET" url ≡ none
        → t.do_request (record { method = "GET"; url = url; body = body }) n
          ≡ (n', inr (sent served))
        → t.decode_status (text +++ "\n") ≡ inr (status_of count name)
        → get_database_status t client n ≡ (n', inr (status_of count name))
  unfolding get_database_status client_call create_request
  status_round_trip t client n n' count name text body c q m encoded made answered decoded_json =
      let url = client.config.proxy_service_hostname +++ database_status_path in
      ap (λ e. call_request t client (with_body t "GET" url e) n) encoded
      ∙ ap (λ e. call_request t client (with_request t "GET" url body e) n) made
      ∙ ap (λ r. (r.0, with_response t client url r.1)) answered
      ∙ ap (λ r. (n', with_response t client url (inr r))) (served_status count name text c q m)
      ∙ ap (λ r. (n', debugged t client.debug_log_responses url none (decoded t url r)))
          decoded_json
      ∙ ap (λ r. (n', r))
          (debugged-none t client.debug_log_responses url (inr (status_of count name)))
