-- ===== src/Server.antt =====
-- The server side of the bring-up in kunit/xfstests/nfs_fixture.c: the loopback device, the export
-- caches and knfsd.
pub mod Memory
use nfsplayground.Base.{
  ℕ, ◌+◌, String, not, ℤ, pos, nonzero, negative, e_nomem, State, pure, ◌>>=◌, ◌>>◌, call,
  if◌then◌else◌,
}
use Prim.Native.String.{◌++◌ as ◌<>◌}
use nfsplayground.Kernel.{Kernel, Cache, Mutex}

abbrev pub export_dir : String
export_dir = "/export"

-- NFSEXP_INSECURE_PORT | NFSEXP_NOSUBTREECHECK | NFSEXP_FSID
abbrev pub export_flags : ℕ
export_flags = 0x2402

module _ (K : Kernel) where
  open K use {
    Machine, kmalloc, kfree, mutex_lock, mutex_unlock, decimal, ktime_get_real_seconds,
    loopback_is_up, dev_change_flags_up, cache_parse, nfsd_clear_version, nfsd_create_serv,
    svc_xprt_create, nfsd_svc, nfsd4_end_grace,
  }

  unfoldable pub loopback_up : State Machine ℤ
  loopback_up = do
    call (mutex_lock Mutex.rtnl)
    err ← λ s. if loopback_is_up s then (pos 0, s) else dev_change_flags_up s
    call (mutex_unlock Mutex.rtnl)
    pure err

  -- The line is formatted into memory of its own, since the parser scribbles on it.
  unfoldable pub cache_line : Cache → String → State Machine ℤ
  cache_line cache line = do
    granted ← kmalloc
    if not granted then pure e_nomem else do err ← cache_parse cache line; call kfree; pure err

  -- The three lines that rpc.mountd would write.
  unfoldable pub ip_map_line : ℕ → String
  ip_map_line expiry = "nfsd 127.0.0.1 " <> (decimal expiry <> " localhost\n")

  unfoldable pub export_line : ℕ → String
  export_line expiry =
      "localhost /export "
      <> (decimal expiry <> (" " <> (decimal export_flags <> " 65534 65534 0\n")))

  unfoldable pub expkey_line : ℕ → String
  expkey_line expiry = "localhost 1 \\x00000000 " <> (decimal expiry <> " /export\n")

  pub configure_exports : State Machine ℤ
  configure_exports s =
      let expiry = ktime_get_real_seconds s + 3600 in
      (do
        err ← cache_line Cache.ip_map_cache (ip_map_line expiry)
        if nonzero err then pure err else do
          err ← cache_line Cache.svc_export_cache (export_line expiry)
          if nonzero err then pure err else cache_line Cache.svc_expkey_cache (expkey_line expiry))
        s

  -- `if (err >= 0) err = next;`
  abbrev pub if_ok : ℤ → State Machine ℤ → State Machine ℤ
  if_ok err next = if negative err then pure err else next

  pub start_nfsd : State Machine ℤ
  start_nfsd = do
    call (mutex_lock Mutex.nfsd_mutex)
    call (nfsd_clear_version 2)
    call (nfsd_clear_version 3)
    err ← nfsd_create_serv
    err ← if_ok err (svc_xprt_create "udp" 2049)
    err ← if_ok err (svc_xprt_create "tcp" 2049)
    err ← if_ok err (nfsd_svc 1)
    call (mutex_unlock Mutex.nfsd_mutex)
    if negative err then pure err else do call nfsd4_end_grace; pure (pos 0)

  unfoldable pub stop_nfsd : State Machine (Unit {0})
  stop_nfsd = do
    call (mutex_lock Mutex.nfsd_mutex)
    _ ← nfsd_svc 0
    call (mutex_unlock Mutex.nfsd_mutex)
