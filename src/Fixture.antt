-- ===== src/Fixture.antt =====
-- The static variables of kunit/xfstests/nfs_fixture.c, beside the machine that its calls run on.
use nfsplayground.Base.{ℕ, String, Bool, Option, State}
use nfsplayground.Kernel.{Kernel}

pub record Fixture (K : Kernel) : Type 0 where
  pub machine : K.Machine
  pub saved_creds : Option K.CredRef
  pub override : Option K.CredRef
  pub fixture_refs : ℕ
  pub export_mount_opts : String
  pub tmpfs_mounted : Bool
  pub nfsdfs_mounted : Bool
  pub nfsd_up : Bool
  pub client_mounted : Bool
  pub bringup_root : Option K.PathRef
  pub hostbin : String
  pub hostbin_mounted : Bool
  pub prog_seq : ℕ

module _ {K : Kernel} where
  -- A call of the kernel, or of a helper that touches no static variable.
  abbrev pub sys : {A : Type 0} → State K.Machine A → State (Fixture K) A
  sys m w = ((m w.machine).0, record w { machine = (m w.machine).1 })

  -- An assignment to static variables.
  abbrev pub modify : (Fixture K → Fixture K) → State (Fixture K) (Unit {0})
  modify f w = (tt, f w)

  abbrev pub get : State (Fixture K) (Fixture K)
  get w = (w, w)
