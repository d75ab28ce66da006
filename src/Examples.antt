-- ===== src/Examples.antt =====
-- The theorems on small concrete inputs.
mod Data
mod Payloads
mod Queue
mod Persistence
mod Backtests
mod Drafting
mod Services
mod Uploads
mod Candidates
mod Prices
mod Reviews
mod Requests
