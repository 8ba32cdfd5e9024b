-- ===== src/HttpUtil.antt =====
-- src/http_util.cpp: the request helpers of the server, by subject.
pub mod Host
pub mod Media
pub mod Base64
pub mod Compare
pub mod Json
