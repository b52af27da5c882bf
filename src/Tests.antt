-- ===== src/Tests.antt =====
-- Small inputs on which the theorems are applied.
mod Keyspace
mod Streams
mod Strings
mod Protocol
mod Dispatch
mod Hashes
mod Inputs
mod Rdb
mod Geo
mod Server
mod ZSets
mod Client
