-- ===== src/Programs/Status.antt =====
-- The wait statuses of wait(2), and what xfs_run_prog reports of them.
use nfsplayground.Base.{ℕ, ◌+◌, ◌*◌, ◌<◌, ◌≡◌, Bool, true, false, pos, if◌then◌else◌, arith}
use nfsplayground.Programs.{exit_status}

-- How a program ends: with an exit code, or killed by a signal, with or without a core dump.
pub data Ending : Type 0 where
  exited : ℕ → Ending
  killed : ℕ → Bool → Ending

-- The status that wait(2) gives: the code in the second byte; or the signal in the low seven bits,
-- with a bit for the core dump.
pub wait_status : Ending → ℕ
wait_status (exited code) = code * 256
wait_status (killed signal core) = signal + (if core then 128 else 0)

-- What the header promises: the exit status, or 128 and the signal.
pub reported : Ending → ℕ
reported (exited code) = code
reported (killed signal core) = 128 + signal

abbrev pub IsEnding : Ending → Type 0
IsEnding (exited code) = code < 256
IsEnding (killed signal core) = (0 < signal) × (signal < 127)

-- Of every ending with a code below 256 or a signal below 127, xfs_run_prog reports what the header
-- promises, and that lies below 256.
pub exit_status-wait_status :
    (e : Ending)
    → IsEnding e
    → (exit_status (pos (wait_status e)) ≡ pos (reported e)) × (reported e < 256)
unfolding exit_status wait_status reported
exit_status-wait_status (exited code) h = (ground arith, h)
exit_status-wait_status (killed signal true) h = (ground arith, omega arith)
exit_status-wait_status (killed signal false) h = (ground arith, omega arith)
