-- ===== src/Lifecycle/Clearing.antt =====
-- A teardown clears every static variable that a bring-up or a program run sets, from any state.
use nfsplayground.Base.{◌≡◌, ◌∙◌, ap, inl, inr, false, none, Bool-cases, Option-cases, ◌>>=◌, ◌>>◌}
use nfsplayground.Kernel.{Kernel}
use nfsplayground.Fixture.{Fixture, sys}
use nfsplayground.Paths.{rmdir}
use nfsplayground.Settle.{mnt}
use nfsplayground.Mounts.{scratch_mnt, scratch_umount}
use nfsplayground.Server.{export_dir}
use nfsplayground.Programs.{hostbin_umount}
use nfsplayground.Lifecycle.{
  default_opts, nfsdfs_dir, export_opts, stop_client, stop_server, umount_nfsdfs, umount_tmpfs,
  forget_root, teardown,
}

module _ {K : Kernel} where
  hostbin_umount-clears :
      (w : Fixture K)
      → (hostbin_umount K w).1
        ≡ record w { machine = (hostbin_umount K w).1.machine; hostbin_mounted = false }
  unfolding hostbin_umount
  hostbin_umount-clears w = elim (Bool-cases w.hostbin_mounted) [
    | inl e ↦ rw (e, ◌>>=◌, ◌>>◌)
    | inr e ↦ rw (e, ◌>>=◌, ◌>>◌)
  ]

  stop_client-clears :
      (w : Fixture K)
      → (stop_client K w).1
        ≡ record w { machine = (stop_client K w).1.machine; client_mounted = false }
  unfolding stop_client
  stop_client-clears w = elim (Bool-cases w.client_mounted) [
    | inl e ↦ rw (e, ◌>>=◌)
    | inr e ↦ rw (e, ◌>>=◌)
  ]

  stop_server-clears :
      (w : Fixture K)
      → (stop_server K w).1 ≡ record w { machine = (stop_server K w).1.machine; nfsd_up = false }
  unfolding stop_server
  stop_server-clears w = elim (Bool-cases w.nfsd_up) [
    | inl e ↦ rw (e, ◌>>=◌)
    | inr e ↦ rw (e, ◌>>=◌)
  ]

  umount_nfsdfs-clears :
      (w : Fixture K)
      → (umount_nfsdfs K w).1
        ≡ record w { machine = (umount_nfsdfs K w).1.machine; nfsdfs_mounted = false }
  unfolding umount_nfsdfs
  umount_nfsdfs-clears w = elim (Bool-cases w.nfsdfs_mounted) [
    | inl e ↦ rw (e, ◌>>=◌)
    | inr e ↦ rw (e, ◌>>=◌)
  ]

  umount_tmpfs-clears :
      (w : Fixture K)
      → (umount_tmpfs K w).1
        ≡ record w { machine = (umount_tmpfs K w).1.machine; tmpfs_mounted = false }
  unfolding umount_tmpfs
  umount_tmpfs-clears w = elim (Bool-cases w.tmpfs_mounted) [
    | inl e ↦ rw (e, ◌>>=◌)
    | inr e ↦ rw (e, ◌>>=◌)
  ]

  forget_root-clears :
      (w : Fixture K)
      → (forget_root K w).1
        ≡ record w { machine = (forget_root K w).1.machine; bringup_root = none }
  unfolding forget_root
  forget_root-clears w = elim (Option-cases w.bringup_root) [
    | inl e ↦ rw (e, ◌>>=◌)
    | inr (root, e) ↦ rw (e, ◌>>=◌)
  ]

  -- From any state, half-built ones included, xfs_teardown leaves the four stages and the program
  -- directory marked as down, the root forgotten and the export options back at the default, and
  -- touches no other static variable: not the reference count, and not the switched credentials.
  pub teardown-clears :
      (w : Fixture K)
      → (teardown K w).1 ≡ record w {
        machine = (teardown K w).1.machine;
        export_mount_opts = K.strscpy 64 default_opts;
        tmpfs_mounted = false;
        nfsdfs_mounted = false;
        nfsd_up = false;
        client_mounted = false;
        bringup_root = none;
        hostbin_mounted = false;
      }
  unfolding teardown export_opts
  teardown-clears w =
      let w1 = (hostbin_umount K w).1 in
      let w2 = (sys (rmdir K scratch_mnt) (sys (scratch_umount K) w1).1).1 in
      let w3 = (stop_client K w2).1 in
      let w4 = (stop_server K w3).1 in
      let w5 = (umount_nfsdfs K w4).1 in
      let w6 = (umount_tmpfs K w5).1 in
      let w7 = (sys (rmdir K export_dir) (sys (rmdir K nfsdfs_dir) (sys (rmdir K mnt) w6).1).1).1 in
      let w8 = record w7 { export_mount_opts = K.strscpy 64 default_opts } in
      let m = (forget_root K w8).1.machine in
      let o = K.strscpy 64 default_opts in
      forget_root-clears w8
      ∙ ap {A = Fixture K}
          (λ v. record v { machine = m; bringup_root = none; export_mount_opts = o })
          (umount_tmpfs-clears w5)
      ∙ ap {A = Fixture K}
          (λ v. record v {
            machine = m;
            bringup_root = none;
            export_mount_opts = o;
            tmpfs_mounted = false;
          })
          (umount_nfsdfs-clears w4)
      ∙ ap {A = Fixture K}
          (λ v. record v {
            machine = m;
            bringup_root = none;
            export_mount_opts = o;
            tmpfs_mounted = false;
            nfsdfs_mounted = false;
          })
          (stop_server-clears w3)
      ∙ ap {A = Fixture K}
          (λ v. record v {
            machine = m;
            bringup_root = none;
            export_mount_opts = o;
            tmpfs_mounted = false;
            nfsdfs_mounted = false;
            nfsd_up = false;
          })
          (stop_client-clears w2)
      ∙ ap {A = Fixture K}
          (λ v. record v {
            machine = m;
            bringup_root = none;
            export_mount_opts = o;
            tmpfs_mounted = false;
            nfsdfs_mounted = false;
            nfsd_up = false;
            client_mounted = false;
          })
          (hostbin_umount-clears w)
