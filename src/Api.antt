-- ===== src/Api.antt =====
-- api/bgp_api.cpp: the queries of the API.
pub mod Match
pub mod Rfc1918
pub mod Json
pub mod Prefix
