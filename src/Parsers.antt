-- ===== src/Parsers.antt =====
-- app/pipeline/parsers: the local parser, the client of LlamaParse, and the choice between them.
pub mod Local
pub mod Cloud
pub mod Llama
pub mod Polling
pub mod Attempts
pub mod Clean
