-- ===== src/Store.antt =====
-- src/store.c and src/store.h: the keyspace and its values.
pub mod Types
pub mod Scores
pub mod Hashing
pub mod Keys
pub mod Invariant
pub mod Live
pub mod Update
pub mod Strings
pub mod Lists
pub mod Streams
pub mod Hashes
pub mod ZSets
