-- ===== src/Server/Memory.antt =====
-- The memory that setting the exports up takes.
use nfsplayground.Base.{
  ℕ, ◌+◌, ◌-◌, ◌≡◌, ◌∙◌, inl, inr, String, nonzero, ◌>>=◌, if◌then◌else◌, arith, Bool-cases,
}
use nfsplayground.Kernel.{Kernel, Cache}
use nfsplayground.Server.{cache_line, ip_map_line, export_line, expkey_line, configure_exports}

-- What the kernel documents of the number of allocations in use.
pub record Allocations (K : Kernel) (in_use : K.Machine → ℕ) : Type 0 where
  pub in_use-kmalloc :
      (s : K.Machine)
      → in_use (K.kmalloc s).1 ≡ (if (K.kmalloc s).0 then in_use s + 1 else in_use s)
  pub in_use-kfree : (s : K.Machine) → in_use (K.kfree s) ≡ in_use s - 1
  pub in_use-cache_parse :
      (cache : Cache) (line : String) (s : K.Machine)
      → in_use (K.cache_parse cache line s).1 ≡ in_use s

module _ {K : Kernel} {in_use : K.Machine → ℕ} (L : Allocations K in_use) where
  cache_line-in_use :
      (cache : Cache) (line : String) (s : K.Machine)
      → in_use (cache_line K cache line s).1 ≡ in_use s
  unfolding cache_line
  cache_line-in_use cache line s = elim (Bool-cases (K.kmalloc s).0) [
    | inr refused ↦ rw (refused, ◌>>=◌) (rw refused at (L.in_use-kmalloc s))
    | inl granted ↦
        let a = (K.kmalloc s).1 in
        rw (granted, ◌>>=◌)
          (omega (
            arith,
            rw granted at (L.in_use-kmalloc s),
            L.in_use-cache_parse cache line a,
            L.in_use-kfree (K.cache_parse cache line a).1,
          ))
  ]

  -- Setting the exports up frees all the memory that it takes, whichever of its three lines is
  -- refused, if the kernel counts allocations as documented.
  pub configure_exports-in_use : (s : K.Machine) → in_use (configure_exports K s).1 ≡ in_use s
  unfolding configure_exports
  configure_exports-in_use s =
      let expiry = K.ktime_get_real_seconds s + 3600 in
      let a = cache_line K Cache.ip_map_cache (ip_map_line K expiry) s in
      let b = cache_line K Cache.svc_export_cache (export_line K expiry) a.1 in
      let ka = cache_line-in_use Cache.ip_map_cache (ip_map_line K expiry) s in
      let kb = cache_line-in_use Cache.svc_export_cache (export_line K expiry) a.1 in
      let kc = cache_line-in_use Cache.svc_expkey_cache (expkey_line K expiry) b.1 in
      elim (Bool-cases (nonzero a.0)) [
        | inl bad ↦ rw (bad, ◌>>=◌) ka
        | inr good ↦
            rw (good, ◌>>=◌)
              (elim (Bool-cases (nonzero b.0)) [
                | inl bad ↦ rw (bad, ◌>>=◌) (kb ∙ ka)
                | inr fine ↦ rw (fine, ◌>>=◌) (kc ∙ kb ∙ ka)
              ])
      ]
