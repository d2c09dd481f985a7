-- ===== src/Examples.antt =====
-- The theorems about kunit/xfstests/nfs_fixture.c, applied to a small concrete kernel.
mod Toy
mod Laws
mod Stores
mod Mappings
mod Sparse
mod Copying
mod Renaming
mod Units
mod Races
mod Locks
mod Runs
mod Ports
mod Models
mod Trees
