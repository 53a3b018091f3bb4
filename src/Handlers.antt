-- ===== src/Handlers.antt =====
-- http.Handler of the Go library, as the middlewares use it: code that runs on a request and changes
-- what handlers share (`World`). A handler is a function of the request, since the context and the
-- header that it passes on are its own arguments.
use kava_proxy_service.Base.{List, Result}
use kava_proxy_service.Exec.{Exec}
use kava_proxy_service.Http.{Request}
use kava_proxy_service.Clients.Metrics.{ProxiedRequestMetric}

-- The store of the cache client, the response's writer, and the metrics that were handed to the
-- database, in order.
pub record World (S W : Type 0) : Type 0 where
  pub store : S
  pub writer : W
  pub metrics : List ProxiedRequestMetric

abbrev pub Handler : Type 0 → Type 0 → Type 0
Handler S W = Request → Exec (World S W) (Unit {0})

module _ {S W : Type 0} where
  -- Runs code of the cache client; its result is a value, as Go's `(v, err)` is, but for a panic.
  abbrev pub on_store : {A : Type 0} → Exec S A → World S W → World S W × Result A
  on_store m w = (record w { store = (m w.store).0 }, (m w.store).1)

  abbrev pub on_writer : (W → W) → World S W → World S W
  on_writer f w = record w { writer = f w.writer }
