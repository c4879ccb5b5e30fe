-- ===== src/Curl.antt =====
-- src/features/request-workbench/model/curl-import.ts: from a curl command to a request.
pub mod Shell
pub mod Quotes
pub mod Words
pub mod Import
pub mod Build
pub mod Trip
mod Tests
