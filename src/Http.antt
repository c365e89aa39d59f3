-- ===== src/Http.antt =====
-- The HTTP API of internal/handler/handler.go. `Handlers` holds its code; `Answers` proves what its
-- responses say. `Middleware` holds the middleware and the handlers that only report.
pub mod Handlers
pub mod Answers
pub mod Middleware
