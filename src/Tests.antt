-- ===== src/Tests.antt =====
-- The theorems applied to concrete inputs.
mod Fixture
mod Streams
mod Tokens
mod Accounts
mod Refreshing
mod Parameters
mod Calls
mod Batching
mod Scrubbing
mod Searches
mod Fallbacks
mod Assistants
mod Encryption
mod Settings
mod Usages
mod Switching
