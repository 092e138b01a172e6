-- ===== src/Api.antt =====
-- api/LocalApi.hpp and LocalApi.cpp: the HTTP interface on the local host.
pub mod Json
pub mod Data
pub mod Http
pub mod Auth
pub mod Write
pub mod Results
pub mod Validate
pub mod Apply
pub mod Status
pub mod View
pub mod Events
pub mod Route
pub mod Serve
mod Tests
