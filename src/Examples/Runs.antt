-- ===== src/Examples/Runs.antt =====
-- Runs on the small kernel: what it takes for each theorem's conditions to hold.
use nfsplayground.Base.{
  ℕ, ◌<◌, ◌≡◌, ◌≢◌, refl, ◌⊎◌, true, false, none, some, List, [], ◌∷◌, ◌++◌, ℤ, pos, e_busy,
  e_notempty, ltb, arith,
}
use nfsplayground.Kernel.{Kstatfs, ptr, err_ptr}
use nfsplayground.Paths
use nfsplayground.Paths.Calls.{readlink, run_call, run_call-usage}
use nfsplayground.Files.{write_new_file, new_file_flags}
use nfsplayground.Files.Writing.{Grown, write_new_file-contents}
use nfsplayground.Creds.{restore_creds, access, check_access}
use nfsplayground.Creds.Bracket.{
  switch, set_euid, restore, check, CredOp, run_ops, restore_creds-run_ops, switch_creds-cred,
  access-checks, AsRealUser, Switching,
}
use nfsplayground.Settle.{rmdir_settled, wait_for_free_bytes}
use nfsplayground.Settle.Rounds.{Settled, rmdir_settled-Settled}
use nfsplayground.Settle.Space.{Polled, wait_for_free_bytes-Polled}
use nfsplayground.Mounts.{umount, umount_settled, scratch_umount}
use nfsplayground.Mounts.Stack.{Detached, umount_settled-Detached, scratch_umount-stacked}
use nfsplayground.Server.Memory.{configure_exports-in_use}
use nfsplayground.Server.{configure_exports}
use nfsplayground.Programs.{exit_status, lines_from}
use nfsplayground.Programs.Status.{killed, wait_status, reported, exit_status-wait_status}
use nfsplayground.Programs.Log.{joined, Printed, lines_from-text}
use nfsplayground.Lifecycle.{bringup, teardown, get_fixture, is_mounted, default_opts}
use nfsplayground.Lifecycle.Stages.{At, Brought, bringup-Brought}
use nfsplayground.Lifecycle.Clearing.{teardown-clears}
use nfsplayground.Lifecycle.Sharing.{FirstGet, get_fixture-first}
use nfsplayground.Lifecycle.Users.{
  SuiteOp, suite_init, suite_exit, as_user, run_suite, users, run_suite-is_mounted,
}
use nfsplayground.Examples.Toy.{toy, start, idle_fixture}
use nfsplayground.Examples.Laws.{
  counting, counting-Allocations, usage, toy-Counts, toy-WritesAppend, toy-CredLaws, toy-StackLaws,
}

idle_fixture-At : At 0 idle_fixture
idle_fixture-At = record { tmpfs = refl; nfsdfs = refl; nfsd = refl; client = refl }

run_call-usage_example : usage (run_call toy (readlink "/a" 64) start) ≡ usage start
run_call-usage_example = run_call-usage toy-Counts (readlink "/a" 64) start

abbrev seven : List ℕ
seven = 1 ∷ 2 ∷ 3 ∷ 4 ∷ 5 ∷ 6 ∷ 7 ∷ []

write_new_file-contents_example :
    ((e : ℤ) × ((toy.filp_open "/a" new_file_flags 0o644 start).0 ≡ err_ptr e)
      × ((write_new_file toy "/a" seven start).0 ≡ some e))
    ⊎ ((f : ℕ) × ((toy.filp_open "/a" new_file_flags 0o644 start).0 ≡ ptr f)
        × Grown toy-WritesAppend f [] seven
            (write_new_file toy "/a" seven start).0
            (write_new_file toy "/a" seven start).1)
write_new_file-contents_example =
    write_new_file-contents toy-WritesAppend "/a" seven start (omega arith)

abbrev cred_ops : List CredOp
cred_ops = switch 65534 65534 ∷ check "/a" 4 ∷ set_euid 1000 ∷ restore ∷ set_euid 1000 ∷ []

restore_creds-run_ops_example :
    let w' = (restore_creds toy (run_ops toy cred_ops idle_fixture)).1 in
    (w'.saved_creds ≡ none)
    × (w'.override ≡ none)
    × (toy.current_cred w'.machine ≡ true)
    × (w'.machine.owned ≡ 0)
restore_creds-run_ops_example = restore_creds-run_ops toy-CredLaws cred_ops idle_fixture refl refl

access-checks_example :
    let own = toy.read_cred true start in
    (s' : toy.Machine) × AsRealUser own (toy.read_cred (toy.current_cred s') s')
    × ((access toy "/a" 4 start).0 ≡ (check_access toy "/a" 4 s').0)
access-checks_example = access-checks toy-CredLaws "/a" 4 start false refl

switch_creds-cred_example : Switching toy 65534 65534 idle_fixture
switch_creds-cred_example = switch_creds-cred toy-CredLaws 65534 65534 idle_fixture

rmdir_settled-Settled_example :
    Settled toy 20 e_notempty
      (Paths.rmdir toy "/a")
      start
      (rmdir_settled toy "/a" start).0
      (rmdir_settled toy "/a" start).1
rmdir_settled-Settled_example = rmdir_settled-Settled toy "/a" start

abbrev empty_stat : Kstatfs
empty_stat = record { f_bavail = 0; f_bsize = 0 }

wait_for_free_bytes-Polled_example :
    Polled toy 100 100000 empty_stat start
      (wait_for_free_bytes toy 100000 empty_stat start).0
      (wait_for_free_bytes toy 100000 empty_stat start).1
wait_for_free_bytes-Polled_example = wait_for_free_bytes-Polled toy 100000 empty_stat start

umount_settled-Detached_example :
    let r = umount_settled toy "/mnt/export" start in
    ((r.0 ≢ e_busy) × Settled toy 20 e_busy (umount toy "/mnt/export") start r.0 r.1)
    ⊎ Detached toy "/mnt/export" start r.0 r.1
umount_settled-Detached_example = umount_settled-Detached toy "/mnt/export" start

-- Nine mounts: one is left.
scratch_umount-stacked_example : let r = scratch_umount toy start in (r.0 ≡ pos 0) × (r.1.stack ≡ 1)
scratch_umount-stacked_example = scratch_umount-stacked toy-StackLaws start

exit_status-wait_status_example :
    (exit_status (pos (wait_status (killed 9 true))) ≡ pos (reported (killed 9 true)))
    × (reported (killed 9 true) < 256)
exit_status-wait_status_example = exit_status-wait_status (killed 9 true) (omega arith, omega arith)

-- A line, an empty line, and an end without a newline.
lines_from-text_example :
    Printed (lines_from [] (joined ((65 ∷ []) ∷ [] ∷ []) (66 ∷ []))) ((65 ∷ []) ∷ [] ∷ []) (66 ∷ [])
    × Printed
        (lines_from [] (joined ((65 ∷ []) ∷ [] ∷ []) ((66 ∷ []) ++ 0 ∷ 67 ∷ [])))
        ((65 ∷ []) ∷ [] ∷ [])
        (66 ∷ [])
lines_from-text_example =
    lines_from-text ((65 ∷ []) ∷ [] ∷ []) (66 ∷ []) (67 ∷ []) ((refl, refl, tt), (tt, tt))
      (refl, refl, tt)

configure_exports-in_use_example : (configure_exports counting start).1.owned ≡ 0
configure_exports-in_use_example = configure_exports-in_use counting-Allocations start

bringup-Brought_example : Brought idle_fixture (bringup toy idle_fixture)
bringup-Brought_example = bringup-Brought idle_fixture idle_fixture-At

teardown-clears_example : (teardown toy idle_fixture).1 ≡ record idle_fixture {
  machine = (teardown toy idle_fixture).1.machine;
  export_mount_opts = default_opts;
  tmpfs_mounted = false;
  nfsdfs_mounted = false;
  nfsd_up = false;
  client_mounted = false;
  bringup_root = none;
  hostbin_mounted = false;
}
teardown-clears_example = teardown-clears idle_fixture

get_fixture-first_example :
    FirstGet (get_fixture toy idle_fixture).0 (get_fixture toy idle_fixture).1
get_fixture-first_example = get_fixture-first idle_fixture refl idle_fixture-At

abbrev suite_ops : List SuiteOp
suite_ops =
    suite_init ∷ suite_init ∷ as_user 1 1 ∷ suite_exit ∷ suite_exit ∷ suite_exit ∷ suite_init ∷ []

run_suite-is_mounted_example :
    ((run_suite toy suite_ops idle_fixture).fixture_refs ≡ users toy suite_ops idle_fixture 0)
    × (is_mounted toy (run_suite toy suite_ops idle_fixture)
        ≡ ltb 0 (users toy suite_ops idle_fixture 0))
run_suite-is_mounted_example = run_suite-is_mounted suite_ops idle_fixture refl idle_fixture-At
