-- ===== src/Service/BodySaver.antt =====
-- service/middleware.go: bodySaverResponseWriter, and service/raptors.go: RequestInterceptor. The
-- writer of the package negroni is a parameter: its own state `N`, and its Write and WriteHeader,
-- which go to the writer that it wraps. Its Header() is that of the writer that it wraps.
use kava_proxy_service.Base.{ℕ, String, List, [], ◌∷◌, Bool, not, str_eq, ◌+++◌, if◌then◌else◌}
use kava_proxy_service.Http.{Writer}

pub record Negroni (N W : Type 0) : Type 0 where
  -- negroni.NewResponseWriter
  pub fresh : N
  pub written : N → Bool
  pub negroni_write : Writer W → String → N × W → N × W
  pub negroni_write_status : Writer W → ℕ → N × W → N × W

-- The new body, and whether there was no error.
abbrev pub RequestInterceptor : Type 0
RequestInterceptor = String → String × Bool

-- The loop over the interceptors: each gets what the one before it has returned, also with an error.
unfoldable pub intercept : List RequestInterceptor → String → String
intercept [] b = b
intercept (f ∷ fs) b = intercept fs (f b).0

pub record BodySaver (N W : Type 0) : Type 0 where
  pub negroni : N
  pub inner : W
  pub saved : String

module _ {N W : Type 0} (n : Negroni N W) (o : Writer W) where
  abbrev with_inner : BodySaver N W → N × W → BodySaver N W
  with_inner w (s, v) = record w { negroni = s; inner = v }

  unfoldable pub save_status : ℕ → BodySaver N W → BodySaver N W
  save_status s w = with_inner w (n.negroni_write_status o s (w.negroni, w.inner))

  unfoldable pub save_write : List RequestInterceptor → String → BodySaver N W → BodySaver N W
  unfolding save_status intercept
  save_write after_request b w =
      let w1 : BodySaver N W = (record w { saved = w.saved +++ b }) in
      let w2 = if not (n.written w1.negroni) then save_status 200 w1 else w1 in
      let b' = if str_eq b "" then b else intercept after_request b in
      with_inner w2 (n.negroni_write o b' (w2.negroni, w2.inner))

  -- bodySaverResponseWriter as an http.ResponseWriter
  unfoldable pub body_saver : List RequestInterceptor → Writer (BodySaver N W)
  unfolding save_write save_status
  body_saver after_request = record {
    write_body = λ b w. save_write after_request b w;
    write_status = λ s w. save_status s w;
    header_of = λ w. o.header_of w.inner;
    change_header = λ f w. record w { inner = o.change_header f w.inner };
  }

  unfoldable pub new_body_saver : W → BodySaver N W
  new_body_saver w = record { negroni = n.fresh; inner = w; saved = "" }
