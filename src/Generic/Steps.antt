-- ===== src/Generic/Steps.antt =====
-- What the cases in kunit/xfstests/generic have in common: calls that must return 0, the mount that
-- must be there, and the directory that a case works in.
pub mod Whole
use nfsplayground.Base.{ℕ, String, not, none, some, List, ℤ, nonzero, State, ◌==ℤ◌}
use nfsplayground.Kernel.{Kernel}
use nfsplayground.Fixture.{Fixture, sys}
use nfsplayground.Paths.{mkdir}
use nfsplayground.Files.{write_new_file}
use nfsplayground.Lifecycle.{is_mounted}
use nfsplayground.Kunit.{Case, ◌>>=◌, ◌>>◌, run, assert, abort, expect, with_action}

module _ (K : Kernel) where
  open K use {Machine, kmalloc}

  abbrev pub Body : Type 0 → Type 0
  Body A = Case (Fixture K) A

  abbrev pub call_sys : {A : Type 0} → State Machine A → Body A
  call_sys m = run (sys m)

  -- `KUNIT_ASSERT_EQ(test, call, 0)` and `KUNIT_EXPECT_EQ(test, call, 0)`
  abbrev pub ok : State Machine ℤ → Body (Unit {0})
  ok m = call_sys m >>= (λ err. assert (not (nonzero err)))

  abbrev pub ok_expected : State Machine ℤ → Body (Unit {0})
  ok_expected m = call_sys m >>= (λ err. expect (not (nonzero err)))

  -- an errno that the call must return
  abbrev pub returns : ℤ → State Machine ℤ → Body (Unit {0})
  returns e m = call_sys m >>= (λ err. expect (err ==ℤ e))

  -- xfs_write_new_file asserted to return 0
  abbrev pub write_ok : String → List ℕ → Body (Unit {0})
  write_ok path bytes =
      call_sys (write_new_file K path bytes)
      >>= (λ err. elim err [ none ↦ abort | some e ↦ assert (not (nonzero e)) ])

  -- kunit_kmalloc, asserted not to be NULL
  abbrev pub allocated : Body (Unit {0})
  allocated = call_sys kmalloc >>= assert

  -- `KUNIT_ASSERT_TRUE(test, xfstests_nfs_mounted())`
  abbrev pub mounted : Body (Unit {0})
  mounted w n = assert (is_mounted K w) w n

  -- an action that is added, for the machine, and asserted to be
  abbrev pub with_cleanup : (Machine → Machine) → Body (Unit {0}) → Body (Unit {0})
  with_cleanup action body =
      call_sys kmalloc
      >>= (λ granted. with_action granted (λ w. record w { machine = action w.machine }) body)

  -- The first three assertions of almost every case: the mount, the directory, the clean-up.
  abbrev pub in_root : String → (Machine → Machine) → Body (Unit {0}) → Body (Unit {0})
  in_root root action body = do mounted; ok (mkdir K root); with_cleanup action body

  -- A part of a case that is about the machine alone.
  abbrev pub on_machine : {A : Type 0} → Case Machine A → Body A
  on_machine m w n =
      ((m w.machine n).0, record w { machine = (m w.machine n).1 }, (m w.machine n).2)
