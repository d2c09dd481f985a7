-- ===== src/Lib.antt =====
-- NFSPlayground's xfstests fixture and ports.
--
-- The repository holds KUnit tests of the Linux kernel's NFS and SunRPC code. The unit tests in
-- kunit/*_test.c call kernel functions on fixed inputs. The ports in kunit/xfstests/generic/ run
-- xfstests cases against a real deployment inside one kernel: a tmpfs, knfsd that exports it, and an
-- NFSv4 client that mounts the export over the loopback. kunit/xfstests/nfs_fixture.c builds that
-- deployment, shares it between suites by a reference count, takes it down, and gives the ports
-- kernel-side stand-ins for the syscalls: path and file helpers, credentials, mounts, waits, and
-- running a program. The fixture is the core of the program, and is modelled whole.
--
-- How the model corresponds to the code. The kernel is not in the repository: it is the record
-- `Kernel`, whose fields are the kernel functions that the fixture calls, over a machine state that
-- nothing looks into. A helper that only calls the kernel is a `State` action on the machine; what
-- touches the static variables of nfs_fixture.c is one on the record `Fixture`, which holds them
-- beside the machine. A function xfs_name is the definition `name` of the module for its part;
-- xfstests_nfs_get and xfstests_nfs_put are `get_fixture` and `put_fixture`. What a theorem needs of
-- the kernel stands in a record of laws (`Counts`, `WritesAppend`, `CredLaws`, `StackLaws`,
-- `Allocations`, `Reads`, `Writes`, `Names`, `KeepsData`, `KeepsLocks`, `MappedFile`, `ReadsFile`,
-- `KeepsBytes`, `Allocates`, `SeeksData`, `HoldsEntries`, `AllocatesUnits`, `ListsAll`, `Prepares`),
-- and the modules of Examples give small concrete kernels that meet them.
--
--   Base        numbers, errnos, lists and the state monad, with the lemmas the parts share
--   Kernel      the kernel's functions
--   Paths       xfs_mkdir to xfs_removexattr; Paths/Calls: what a helper takes it gives back
--   Files       writing, reading, direct and user I/O, locks; Files/Writing: what a new file holds
--   Fixture     the static variables
--   Creds       credential switches and xfs_access; Creds/Bracket: they are undone
--   Settle      the retry loops; Settle/Rounds, Space: how many rounds, what ends them
--   Mounts      mounts and unmounts; Mounts/Stack: the lazy detach and stacked mounts
--   Server      loopback, export caches, knfsd; Server/Memory
--   Programs    running a program; Programs/Status, Programs/Log: its exit status and its log
--   Lifecycle   bring-up, teardown and the count; Lifecycle/Stages, Clearing, Sharing, Users
--   Kunit       assertions and expectations of a test case
--   Generic     ports from kunit/xfstests/generic: 001 (content, verification and chains), 006 (its
--               4096 names), 007 (random names and its table of them), 023 (its matrix of renames),
--               075 (fsx and its shadow file), 100 (a tree that is copied), 313 (times of a
--               truncated file), 337 and 377 (lists of extended attributes), 339 (names that collide
--               in a hash), 478 (its table of locks and closes), 029 and 030 (mapped writes to a
--               file that is cut and extended), 086, 141, 406 and 708 (files whose bytes a formula
--               gives), 130 (its writes, cuts and holes), 430 (copies of ranges), 109 (renames and the
--               types of entries), 214 (allocated ranges), 286 (a copy by seeks), 310 (two threads on
--               one directory), 436 (the allocation unit, and seeks over allocated ranges);
--               Generic/Pattern: the comparison with a formula; Generic/Steps: what the cases have
--               in common
--   Examples    the theorems at concrete inputs
--
-- Bounds and fuel. The retry loops count their tries down, 20 for rmdir and unmounts, 100 for free
-- space, 8 for stacked mounts, as the code does. The write loop of xfs_write_new_file runs on fuel,
-- one round more than there are bytes: each round that goes on writes one byte at least, and the
-- theorem about it says that a result is returned. Sizes wrap at 2 ^ 64. The loops of generic/001
-- that write and verify run on one round for each byte; the loop of a copy ends when the kernel
-- says so, and takes its fuel from the caller. A walk over a list of names makes one round for each
-- byte of it, since every round moves behind a terminator. The loops that move by whole chunks
-- (086, 406, 708, 029, 030, 130 and the extents of 286) make at most one round for each byte; where
-- the kernel moves the position (141 and 708), the fuel is the caller's. So is that of the walk by
-- seeks in generic/286, where fuel for every byte is shown to be enough, of the listings in
-- generic/310, where fuel for every name and one more call is, and of the search for a name in
-- generic/339, which the source repeats without a bound; the other loops that a listed directory ends
-- take theirs from the caller, too. The search for the allocation unit in generic/436 doubles an
-- offset, at most once for each byte of a block, and halves a shift, at most as often as the shift
-- counts.
--
-- The two threads of generic/310 are one state: what the reader has counted, and a list of how many
-- reads it makes before each of the next calls of the case. Every list is an order of the two.
--
-- Not modelled: the unit tests and the other ports, which are sequences of calls of kernel code with
-- literals to compare; the printed messages; concurrency between suites beyond the lock, under which a
-- get or a put is one step; the scripts, workflows, patches and documents.
pub mod Base
pub mod Kernel
pub mod Paths
pub mod Files
pub mod Fixture
pub mod Creds
pub mod Settle
pub mod Mounts
pub mod Server
pub mod Programs
pub mod Lifecycle
pub mod Kunit
pub mod Generic
pub mod Examples
