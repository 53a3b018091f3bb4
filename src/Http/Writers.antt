-- ===== src/Http/Writers.antt =====
-- http.ResponseWriter of the Go library. The interface is `Writer` over a state; `ResponseWriter` is
-- the server's own writer, as far as the code can tell what it has done to it.
use kava_proxy_service.Base.{ℕ, String, Option, none, some, List, [], ◌∷◌, ◌+++◌, ◌≡◌, refl}
use kava_proxy_service.Http.Headers.{Header}

pub record Writer (W : Type 0) : Type 0 where
  pub write_body : String → W → W
  pub write_status : ℕ → W → W
  -- Header(), and a change of the map that it returns
  pub header_of : W → Header
  pub change_header : (Header → Header) → W → W

-- Header() is one map: it is what it was last changed to, and no write changes it.
pub record WriterLaws {W : Type 0} (o : Writer W) : Type 0 where
  pub header_of-change_header :
      (f : Header → Header) (w : W) → o.header_of (o.change_header f w) ≡ f (o.header_of w)
  pub header_of-write_body : (b : String) (w : W) → o.header_of (o.write_body b w) ≡ o.header_of w
  pub header_of-write_status : (s : ℕ) (w : W) → o.header_of (o.write_status s w) ≡ o.header_of w

pub record ResponseWriter : Type 0 where
  pub header : Header
  pub status : Option ℕ
  pub body : String

-- Only the first status is sent.
abbrev pub first_status : Option ℕ → ℕ → Option ℕ
first_status none s = some s
first_status (some s) _ = some s

abbrev pub server_writer : Writer ResponseWriter
server_writer = record {
  write_body = λ b w. record w { status = first_status w.status 200; body = w.body +++ b };
  write_status = λ s w. record w { status = first_status w.status s };
  header_of = λ w. w.header;
  change_header = λ f w. record w { header = f w.header };
}

pub server_writer-WriterLaws : WriterLaws server_writer
server_writer-WriterLaws = record {
  header_of-change_header = λ f w. refl;
  header_of-write_body = λ b w. refl;
  header_of-write_status = λ s w. refl;
}

-- What a handler does to its writer: Write, WriteHeader, and a change of Header().
pub data WriterCall : Type 0 where
  write : String → WriterCall
  write_header : ℕ → WriterCall
  update_header : (Header → Header) → WriterCall

abbrev pub call_writer : {W : Type 0} → Writer W → WriterCall → W → W
call_writer o (write b) w = o.write_body b w
call_writer o (write_header s) w = o.write_status s w
call_writer o (update_header f) w = o.change_header f w

abbrev pub call_all : {W : Type 0} → Writer W → List WriterCall → W → W
call_all o [] w = w
call_all o (c ∷ cs) w = call_all o cs (call_writer o c w)
