-- ===== src/Table.antt =====
-- The chained tables of store.c, generic in their nodes: the keyspace, the index of a sorted set
-- and the fields of a hash are instances. A bucket array is a function from the index to the
-- chain; the program only reads it below its size. A node reached through a pointer and changed
-- in place is written back into its chain (`modify`).
pub mod Chain
pub mod Buckets
pub mod Rehash
pub mod Holds
pub mod Grow
