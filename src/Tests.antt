-- ===== src/Tests.antt =====
-- Concrete runs of the model, and each theorem with hypotheses applied at an input that meets them.
mod L1
mod Scripts
mod Metrics
mod Assets
mod Config
mod Server
mod Manager
mod Redis
mod Group
mod Concurrent
mod Grpc
mod Http
mod Serves
mod Listing
