-- ===== src/Http.antt =====
-- What the handlers use of net/http: headers (Headers), requests with the values that the service
-- puts into their context (Requests), and the writers of responses (Writers).
mod Headers
mod Requests
mod Writers
unfoldable pub use Headers.*
pub use Requests.*
pub use Writers.*
