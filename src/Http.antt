-- ===== src/Http.antt =====
-- http.go: the endpoints of the dashboard and its API, which sit in front of the store. The router,
-- the encoding of responses and the static assets are not modelled.
pub mod Login
pub mod Session
pub mod Concurrent
pub mod LoginSteps
pub mod RateLimit
pub mod Access
pub mod Routes
pub mod Listing
pub mod Paging
mod Tests
