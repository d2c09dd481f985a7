-- ===== src/Programs.antt =====
-- Running a static program from the host, in kunit/xfstests/nfs_fixture.c: xfs_run_prog and what it
-- rests on. The lines that kunit_info prints are returned.
pub mod Status
pub mod Log
use text.Mathlib.Text.{◌==◌ as str_eq}
use Prim.Native.String.{◌++◌ as ◌<>◌}
use nfsplayground.Base.{
  ℕ, zero, suc, ◌+◌, ◌-◌, ◌*◌, ◌/◌, ◌%◌, String, Bool, true, false, not, ◌&&◌, ◌||◌, List, [], ◌∷◌,
  ◌++◌, some, ℤ, pos, negsuc, nonzero, negative, positive, count_of, e_noent, e_nomem, State, pure,
  ◌>>=◌, ◌>>◌, call, if◌then◌else◌, ◌==◌, ltb,
}
use nfsplayground.Kernel.{Kernel, ptr, err_ptr, OpenFlag, o_rdonly, o_rdwr, o_creat, o_trunc, Mutex}
use nfsplayground.Fixture.{Fixture, sys, modify, get}
use nfsplayground.Paths.{unlink, rmdir}
use nfsplayground.Mounts.{mkdir_tolerant, mount_at, umount_settled}

abbrev pub hostbin_mnt : String
hostbin_mnt = "/hostbin"

-- Bytes of output printed on failure.
abbrev pub prog_tail : ℕ
prog_tail = 4096

-- A wait status as xfs_run_prog reports it; a negative errno stays.
pub exit_status : ℤ → ℤ
exit_status (negsuc n) = negsuc n
exit_status (pos status) =
    if status % 128 == 0 then pos (status / 256 % 256) else pos (128 + status % 128)

-- What is left of a line where the text ends: nothing more is printed if it is empty.
pub last_line : List ℕ → List (List ℕ)
last_line [] = []
last_line (b ∷ bytes) = (b ∷ bytes) ∷ []

-- The loop that prints the log: `line` is what stands between its start and the byte looked at. A
-- zero byte ends the text, as its terminator does.
pub lines_from : List ℕ → List ℕ → List (List ℕ)
unfolding last_line
lines_from line [] = last_line line
lines_from line (c ∷ rest) =
    let printed = line ∷ lines_from [] rest in
    let longer = lines_from (line ++ c ∷ []) rest in
    if c == 0 then last_line line else if c == b'\n' then printed else longer

-- Where the last prog_tail bytes begin.
unfoldable pub tail_start : ℤ → ℕ
tail_start (pos size) = size - prog_tail
tail_start (negsuc n) = 0

module _ (K : Kernel) where
  open K use {
    Machine, File, filp_open, filp_close, fput, kernel_read, vfs_llseek_end, replace_fd, kmalloc,
    kfree, mutex_lock, mutex_unlock, decimal, call_usermodehelper_setup, call_usermodehelper_exec,
  }

  unfoldable pub hostbin_mount : State (Fixture K) ℤ
  hostbin_mount = do
    sys (call (mutex_lock Mutex.hostbin_lock))
    w ← get
    err ← if w.hostbin_mounted then pure (pos 0) else do
      err ← sys (mkdir_tolerant K hostbin_mnt)
      err ←
          if nonzero err
          then pure err
          else sys (mount_at K "none" hostbin_mnt "hostfs" (some w.hostbin))
      modify λ w. record w { hostbin_mounted = not (nonzero err) }
      pure err
    sys (call (mutex_unlock Mutex.hostbin_lock))
    pure err

  unfoldable pub hostbin_umount : State (Fixture K) (Unit {0})
  hostbin_umount = do
    sys (call (mutex_lock Mutex.hostbin_lock))
    w ← get
    if not w.hostbin_mounted then pure tt else do
      _ ← sys (umount_settled K hostbin_mnt)
      modify λ w. record w { hostbin_mounted = false }
      _ ← sys (rmdir K hostbin_mnt)
      pure tt
    sys (call (mutex_unlock Mutex.hostbin_lock))

  -- `for (fd = 0; fd < 3 && err >= 0; fd++)` over the descriptors left.
  unfoldable pub redirect : ℕ → ℕ → File → ℤ → State Machine ℤ
  redirect zero fd f err = pure err
  redirect (suc left) fd f err = elim (negative err) [
    | true ↦ pure err
    | false ↦ do err ← replace_fd fd f; redirect left (fd + 1) f err
  ]

  -- What the child does before it runs the program.
  unfoldable pub prog_init : String → State Machine ℤ
  prog_init log = do
    opened ← filp_open log (o_rdwr ∷ o_creat ∷ o_trunc ∷ []) 0o644
    elim opened [
      | err_ptr e ↦ pure e
      | ptr f ↦ do
        err ← redirect 3 0 f (pos 0)
        call (fput f)
        pure (if negative err then err else pos 0)
    ]

  unfoldable pub prog_dump_log : String → State Machine (List (List ℕ))
  prog_dump_log path = do
    opened ← filp_open path (o_rdonly ∷ []) 0
    elim opened [
      | err_ptr e ↦ pure []
      | ptr f ↦ do
        granted ← kmalloc
        size ← vfs_llseek_end f
        (n, bytes, end) ←
            if granted
            then kernel_read f prog_tail (tail_start size)
            else pure (e_nomem, [], tail_start size)
        call (filp_close f)
        call (if granted then kfree else (λ s. s))
        pure (if positive n then lines_from [] bytes else [])
    ]

  -- From the setup on: the run, its status, the log.
  unfoldable pub exec_prog : String → List String → String → State Machine (ℤ × List (List ℕ))
  exec_prog path argv log = do
    granted ← call_usermodehelper_setup path argv
    if not granted then pure (e_nomem, []) else do
      status ← call_usermodehelper_exec path argv (prog_init log)
      let ret = exit_status status
      printed ← if nonzero ret then prog_dump_log log else pure []
      _ ← unlink K log
      pure (ret, printed)

  -- From the allocations on; what was granted is freed at `out`.
  unfoldable pub launch_prog : String → List String → ℕ → State Machine (ℤ × List (List ℕ))
  launch_prog prog args seq = do
    got_argv ← kmalloc
    got_log ← kmalloc
    let path = "/hostbin/" <> prog
    let log = "/xfstests-prog-" <> (decimal seq <> ".log")
    r ← if not (got_argv && got_log) then pure (e_nomem, []) else do
      got_path ← kmalloc
      if not got_path
          then pure (e_nomem, [])
          else do r ← exec_prog path (path ∷ args) log; call kfree; pure r
    if got_argv then call kfree else pure tt
    if got_log then call kfree else pure tt
    pure r

  unfoldable pub run_prog : String → List String → State (Fixture K) (ℤ × List (List ℕ))
  run_prog prog args = do
    w ← get
    if str_eq w.hostbin "" then pure (e_noent, []) else do
      ret ← hostbin_mount
      if nonzero ret then pure (ret, []) else do
        modify λ w. record w { prog_seq = w.prog_seq + 1 }
        w ← get
        sys (launch_prog prog args w.prog_seq)
