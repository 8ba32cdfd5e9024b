-- ===== src/Server.antt =====
-- src/server.cpp: what the HTTP server decides: who is let in, how errors are answered, and the
-- frames of a stream. HTTP itself (httplib) and the text of JSON (nlohmann) are not modelled: an
-- answer is a value.
pub mod Errors
pub mod Gate
pub mod Logprobs
pub mod Reasoning
pub mod Stream
