-- ===== src/Http.antt =====
-- httpd.c: the request's arguments, the responses, the routes and the loop that reads a request.
pub mod Update
pub mod Args
pub mod Response
pub mod Routes
pub mod Request
