-- ===== src/Examples/Laws.antt =====
-- The small kernel meets what the theorems ask of a kernel.
use nfsplayground.Base.{
  negsuc, true, ◌-◌, ℕ, ◌+◌, ◌≤◌, ◌≡◌, refl, ap, subst, Bool, false, some, List, ◌++◌, take, length,
  pos, arith,
}
use nfsplayground.Kernel.{ip_map_cache, Kernel, Cred}
use nfsplayground.Paths.Calls.{Usage, Counts}
use nfsplayground.Files.Writing.{WritesAppend}
use nfsplayground.Creds.Bracket.{CredLaws}
use nfsplayground.Mounts.Stack.{StackLaws}
use nfsplayground.Server.Memory.{Allocations}
use nfsplayground.Generic.G001.Content.Verified.{Reads}
use nfsplayground.Generic.G001.Content.Written.{Writes}
use nfsplayground.Examples.Toy.{Toy, toy, taken, read_toy, write_toy}

abbrev pub usage : Toy → Usage
usage s = record { paths = s.paths; writers = s.writers; delayed = s.delayed }

pub toy-Counts : Counts toy usage
toy-Counts = record {
  usage-kern_path = λ path flags s. refl;
  usage-path_put = λ p s. refl;
  usage-mnt_want_write = λ p s. refl;
  usage-mnt_drop_write = λ p s. refl;
  usage-vfs_get_link = λ p s. refl;
  usage-do_delayed_call = λ s. refl;
  usage-vfs_getattr = λ p s. refl;
  usage-vfs_truncate = λ p n s. refl;
  usage-vfs_statfs = λ p s. refl;
  usage-chmod_common = λ p m s. refl;
  usage-chown_common = λ p u g s. refl;
  usage-vfs_utimes = λ p a m s. refl;
  usage-vfs_setxattr = λ p name v flags s. refl;
  usage-vfs_getxattr = λ p name size s. refl;
  usage-vfs_listxattr = λ p size s. refl;
  usage-vfs_removexattr = λ p name s. refl;
}

abbrev pub file_contents : ℕ → Toy → List ℕ
file_contents f s = s.contents

taken-le : (bytes : List ℕ) → taken bytes ≤ length bytes
taken-le bytes = ground arith

pos-inj : {m n : ℕ} → pos m ≡ pos n → m ≡ n
pos-inj e = cc

pub toy-WritesAppend : WritesAppend toy file_contents
toy-WritesAppend = record {
  kernel_write-le =
      λ f bytes at_pos n s e. subst (λ k. k ≤ length bytes) (pos-inj e) (taken-le bytes);
  kernel_write-append = λ f bytes n s e.
      let t = pos-inj e in
      (ap (λ k. s.contents ++ take k bytes) t, ap (λ k. length s.contents + k) t);
  kernel_write-failed = λ f bytes at_pos n s e. cc;
  filp_open-truncates = λ path f s e. refl;
  filp_close-contents = λ f s. refl;
}

prepared :
    (s : Toy) (c : Bool)
    → (toy.prepare_creds s).0 ≡ some c
    → read_toy c (toy.prepare_creds s).1 ≡ read_toy s.at_home s
prepared s true e = cc
prepared s false e = refl

written :
    (c : Bool) (v : Cred) (s : Toy)
    → ((write_toy c v s).at_home ≡ s.at_home)
      × ((write_toy c v s).owned ≡ s.owned)
      × (read_toy c (write_toy c v s) ≡ v)
written true v s = (refl, refl, refl)
written false v s = (refl, refl, refl)

same_creds : (c d : Bool) (s : Toy) → read_toy c (record s { at_home = d }) ≡ read_toy c s
same_creds true d s = refl
same_creds false d s = refl

pub toy-CredLaws : CredLaws toy (λ s. s.owned)
toy-CredLaws = record {
  prepare_none = λ s e. cc;
  prepare_some = λ s c e. (refl, refl, prepared s c e);
  write_cred_keeps = written;
  override_creds_lem = λ c s. (refl, refl, refl, same_creds c c s);
  revert_creds_lem = λ c s. (refl, refl);
  put_cred_lem = λ c s. (refl, refl);
  abort_creds_lem = λ c s. (refl, refl);
  fix_setuid_keeps = λ c old s. (refl, refl);
  kern_path_keeps = λ path flags s. (refl, refl);
  inode_permission_keeps = λ p mode s. (refl, refl);
  path_put_keeps = λ p s. (refl, refl);
}

pub toy-StackLaws : StackLaws toy (λ s. s.stack)
toy-StackLaws = record {
  stacked-flush = λ s. refl;
  stacked-kern_path = λ s. (refl, refl);
  path_umount_top = λ s n e. rw e (refl, refl);
  path_umount_none = λ s e. rw e (refl, e);
}

pub toy-Reads : Reads toy file_contents
toy-Reads = record {
  kernel_read-contents = λ f len at_pos s. refl;
  contents-kernel_read = λ f g len at_pos s. refl;
}

-- The same kernel, where a write takes all that it is given.
abbrev pub roomy : Kernel
roomy = record toy {
  kernel_write = λ _ bytes at_pos s.
      ((pos (length bytes), at_pos + length bytes), record s { contents = s.contents ++ bytes });
}

pub roomy-Writes : Writes roomy file_contents
roomy-Writes = record {
  kernel_write-contents = λ f bytes s. (refl, refl);
  contents-filp_close = λ f s. refl;
}

pub roomy-Reads : Reads roomy file_contents
roomy-Reads = record {
  kernel_read-contents = λ f len at_pos s. refl;
  contents-kernel_read = λ f g len at_pos s. refl;
}

-- The same kernel, where allocations are counted and every line but the first is refused.
abbrev pub counting : Kernel
counting = record toy {
  kmalloc = λ s. (true, record s { owned = s.owned + 1 });
  kfree = λ s. record s { owned = s.owned - 1 };
  cache_parse = λ cache line s. (elim cache [ ip_map_cache ↦ pos 0 | _ ↦ negsuc 1 ], s);
}

pub counting-Allocations : Allocations counting (λ s. s.owned)
counting-Allocations = record {
  in_use-kmalloc = λ s. refl;
  in_use-kfree = λ s. refl;
  in_use-cache_parse = λ cache line s. refl;
}
