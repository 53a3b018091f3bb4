-- ===== src/BatchMdw/FakeWriter.antt =====
-- service/batchmdw/fake_response_writer.go: fakeResponseWriter. `onErrorHandler` is kept as the list
-- of the statuses that it is called with.
use kava_proxy_service.Base.{
  refl, arith, ℕ, String, List, [], ◌∷◌, ◌++◌, ◌==◌, ◌+++◌, if◌then◌else◌,
}
use kava_proxy_service.Http.{
  Header, WriterCall, write, write_header, update_header, Writer, WriterLaws,
}

pub record FakeResponseWriter : Type 0 where
  pub body : String
  pub header : Header
  pub error_statuses : List ℕ

unfoldable pub new_fake_response_writer : FakeResponseWriter
new_fake_response_writer = record { body = ""; header = []; error_statuses = [] }

unfoldable pub call : FakeResponseWriter → WriterCall → FakeResponseWriter
call w (write b) = record w { body = w.body +++ b }
call w (write_header status) =
    if status == 200 then w else record w { error_statuses = w.error_statuses ++ status ∷ [] }
call w (update_header f) = record w { header = f w.header }

unfoldable pub calls : FakeResponseWriter → List WriterCall → FakeResponseWriter
unfolding call
calls w [] = w
calls w (c ∷ cs) = calls (call w c) cs

-- As an http.ResponseWriter.
unfoldable pub fake_writer : Writer FakeResponseWriter
unfolding call
fake_writer = record {
  write_body = λ b w. call w (write b);
  write_status = λ s w. call w (write_header s);
  header_of = λ w. w.header;
  change_header = λ f w. call w (update_header f);
}

fake_writer-WriterLaws : WriterLaws fake_writer
unfolding fake_writer
fake_writer-WriterLaws = record {
  header_of-change_header = λ f w. refl;
  header_of-write_body = λ b w. refl;
  header_of-write_status = λ s w. ground arith;
}
