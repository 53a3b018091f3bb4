-- ===== src/BatchMdw.antt =====
-- service/batchmdw: the writer of a sub-request (FakeWriter), the processor that runs the
-- sub-requests concurrently and joins their responses (Processor), the middleware in front of it
-- (Middleware), and what it answers (Answers, TooLarge).
pub mod FakeWriter
pub mod Processor
pub mod Middleware
pub mod Answers
pub mod TooLarge
