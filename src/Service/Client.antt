-- ===== src/Service/Client.antt =====
-- service/client.go: ProxyServiceClient. The transport of net/http and the JSON codec are parameters. An
-- error is on the left, a result on the right.
pub mod Status
use kava_proxy_service.Base.{
  ℕ, String, ◌+++◌, Option, none, some, Bool, true, false, ◌&&◌, leb, ◌⊎◌, inl, inr, if◌then◌else◌,
}
use kava_proxy_service.Service.Endpoints.{DatabaseStatusResponse}

abbrev pub database_status_path : String
database_status_path = "/status/database"

pub record ProxyServiceClientConfig : Type 0 where
  pub proxy_service_hostname : String
  pub debug_log_responses : Bool

pub record ProxyServiceClient : Type 0 where
  pub config : ProxyServiceClientConfig
  pub debug_log_responses : Bool

unfoldable pub new_proxy_service_client : ProxyServiceClientConfig → ProxyServiceClient
new_proxy_service_client config = record {
  config = config;
  debug_log_responses = config.debug_log_responses;
}

pub record RequestError : Type 0 where
  pub message : String
  pub url : String
  pub status_code : ℕ

-- The errors of the client: of the encoder, and of a request.
pub data ClientError : Type 0 where
  encode_error : ClientError
  request_error : RequestError → ClientError

unfoldable pub new_error : String → String → ℕ → ClientError
new_error message url status_code =
    request_error (record { message = message; url = url; status_code = status_code })

pub record ClientRequest : Type 0 where
  pub method : String
  pub url : String
  pub body : String

-- The status, the body, and the text of the error at which a read of the body ends, if there is one.
pub record ClientResponse : Type 0 where
  pub status_code : ℕ
  pub body : String
  pub read_error : Option String

-- What the client calls: json.Encode of its params, http.NewRequest with the text of its error, Do over
-- the state of the network with the text of its error, json.Decode of a body with the
-- text of its error, and %d.
pub record Transport (N : Type 0) : Type 0 where
  pub encode_nil : Option String
  pub new_request_error : String → String → Option String
  pub do_request : ClientRequest → N → N × (String ⊎ ClientResponse)
  pub decode_status : String → String ⊎ DatabaseStatusResponse
  pub print_number : ℕ → String

module _ {N : Type 0} (t : Transport N) where
  abbrev pub with_request : String → String → String → Option String → ClientError ⊎ ClientRequest
  with_request method path body none = inr (record { method = method; url = path; body = body })
  with_request method path body (some message) =
      inl (request_error (record { message = message; url = path; status_code = 0 }))

  abbrev pub with_body : String → String → Option String → ClientError ⊎ ClientRequest
  with_body method path none = inl encode_error
  with_body method path (some body) =
      with_request method path body (t.new_request_error method path)

  unfoldable pub create_request : String → String → ClientError ⊎ ClientRequest
  create_request method path = with_body method path t.encode_nil

  abbrev pub failed : String → String → ClientError
  failed url message = request_error (record { message = message; url = url; status_code = 0 })

  abbrev pub decoded :
      String → String ⊎ DatabaseStatusResponse → ClientError ⊎ DatabaseStatusResponse
  decoded url (inl message) = inl (failed url message)
  decoded url (inr response) = inr response

  -- In debug mode the body is read first, and put back.
  abbrev pub debugged :
      Bool
      → String
      → Option String
      → ClientError ⊎ DatabaseStatusResponse
      → ClientError ⊎ DatabaseStatusResponse
  debugged true url (some message) result = inl (failed url message)
  debugged true url none result = result
  debugged false url _ result = result

  -- The checks of a response.
  abbrev pub with_response :
      ProxyServiceClient → String → String ⊎ ClientResponse → ClientError ⊎ DatabaseStatusResponse
  with_response client url (inl message) = inl (failed url message)
  with_response client url (inr response) =
      if leb 200 response.status_code && leb response.status_code 299
      then debugged client.debug_log_responses url response.read_error
          (decoded url (t.decode_status response.body))
      else inl (
          request_error (record {
            message =
                "request to "
                +++ (url +++ (" error server http error " +++ t.print_number response.status_code));
            url = url;
            status_code = response.status_code;
          }))

  unfoldable pub client_call :
      ProxyServiceClient → ClientRequest → N → N × (ClientError ⊎ DatabaseStatusResponse)
  client_call client request n =
      let (after, response) = t.do_request request n in
      (after, with_response client request.url response)

  abbrev pub call_request :
      ProxyServiceClient
      → ClientError ⊎ ClientRequest
      → N
      → N × (ClientError ⊎ DatabaseStatusResponse)
  call_request client (inl error) n = (n, inl error)
  call_request client (inr request) n = client_call client request n

  unfoldable pub get_database_status :
      ProxyServiceClient → N → N × (ClientError ⊎ DatabaseStatusResponse)
  unfolding client_call create_request
  get_database_status client =
      call_request client
        (create_request "GET" (client.config.proxy_service_hostname +++ database_status_path))
