-- ===== src/Tests.antt =====
-- Runs at concrete inputs: one module of tests and witnesses for each part.
mod Reconciliation
mod Resilience
mod Planning
mod Selection
mod Requests
mod Limits
mod Streams
mod Memories
mod Indexing
mod Recovery
mod Upstream
mod Fusing
mod Vectors
mod Http
mod Chats
