-- ===== src/Generic/G286/Copies.antt =====
-- The case of generic/286, and what its copy holds.
use nfsplayground.Base.{
  ℕ, suc, ◌<◌, ◌≡◌, ◌≢◌, refl, sym, ap, ◌∙◌, subst, arith, [], ◌∷◌, some, pos, ◌==◌, ==_iff, true,
  false, Bool-cases, inl, inr, Option,
}
use nfsplayground.Kernel.{Kernel, ptr, err_ptr, o_rdwr, o_creat, o_excl}
use nfsplayground.Paths.{truncate}
use nfsplayground.Kunit.{
  Case, ◌>>=◌, ◌>>◌, run, step, abort, expect, run-assert, went, went_fine, went_with,
}
use nfsplayground.Generic.G029.Model.{FileView, Holds, Holds-extended, below_test}
use nfsplayground.Generic.G286.{
  src_path, dst_path, file_size, islands, Seeks, call_ok, write_islands, walk, compare_files,
  copy_sparse,
}
use nfsplayground.Generic.G286.SeekLaws.{SeeksData}
use nfsplayground.Generic.G286.Walk.{walk-Copied}
use nfsplayground.Generic.G286.Islands.{island_byte, third, whole, whole_bytes, write_islands-Leads}
use nfsplayground.Generic.G286.Compare.{Done, Both, Both-same, call_ok-went, compare_files-Fine}

not_three : (count : ℕ) → count == 3 ≡ false → count ≢ 3
not_three count e three = let e' = (==_iff count 3).1 three in cc

module _ {K : Kernel} {S : Seeks K} {IsIn IsOut : K.File → Type 0} {src dst : K.Machine → FileView}
    {Data : K.Machine → ℕ → Type 0} (L : SeeksData K S IsIn IsOut src dst Data) where
  -- From the end of the walk on.
  abbrev finish : (from to : K.File) → ℕ → Case K.Machine (Unit {0})
  finish from to count =
      call_ok K S (truncate K dst_path (pos file_size))
      >> (step (K.filp_close from)
          >> (step (K.filp_close to) >> (expect (count == 3) >> compare_files K S)))

  -- The case goes through, counts one failure if the extents are not three, and else none, and the
  -- copy has the size and the bytes of the three islands.
  abbrev pub Passed : ℕ → (count : ℕ) → Option (Unit {0}) × K.Machine × ℕ → Type 0
  Passed n count r =
      (r.0 ≡ some tt) × (count ≡ 3 → r.2 ≡ n) × (count ≢ 3 → r.2 ≡ suc n) × Done L r.1

  counted-Passed :
      (count : ℕ) (s : K.Machine) (n : ℕ)
      → Both L s
      → Passed n count ((expect (count == 3) >> compare_files K S) s n)
  counted-Passed count s n h = elim (Bool-cases (count == 3)) [
    | inl e ↦
        let c = compare_files-Fine L s n h in
        rw e (c.0, λ three. c.1, λ other. absurd (other ((==_iff count 3).0 e)), c.2)
    | inr e ↦
        let c = compare_files-Fine L s (suc n) h in
        rw e (c.0, λ three. absurd (not_three count e three), λ other. c.1, c.2)
  ]

  finish-Passed :
      (from to : K.File) (count : ℕ) (s : K.Machine) (n : ℕ)
      → (src s).size ≡ file_size
      → ((i : ℕ) → i < file_size → (src s).bytes i ≡ island_byte i)
      → ((i : ℕ) → (dst s).bytes i ≡ (src s).bytes i)
      → Passed n count (finish from to count s n)
  finish-Passed from to count s n size bytes equal =
      let t = L.truncate_dst file_size s in
      let s1 = (truncate K dst_path (pos file_size) s).1 in
      let c = L.filp_close_keeps from s1 in
      let s2 = K.filp_close from s1 in
      let c' = L.filp_close_keeps to s2 in
      let s3 = K.filp_close to s2 in
      let h1 : Both L s1 = (
        ap (λ v. v.size) t.1 ∙ size,
        λ i below. ap (λ v. v.bytes i) t.1 ∙ bytes i below,
        (
          ap (λ v. v.size) t.2,
          λ i below.
              ap (λ v. v.bytes i) t.2
              ∙ below_test i file_size ((dst s).bytes i) 0 below
              ∙ equal i
              ∙ bytes i below,
        ),
      ) in
      let h3 = Both-same L s1 s3 (c'.0 ∙ c.0) (c'.1 ∙ c.1) h1 in
      let rest : Case K.Machine (Unit {0}) = expect (count == 3) >> compare_files K S in
      rw
        (went (call_ok K S (truncate K dst_path (pos file_size)))
          (step (K.filp_close from) >> (step (K.filp_close to) >> rest)) s s1 n n
          (call_ok-went L (truncate K dst_path (pos file_size)) s n t.0))
        (counted-Passed count s3 n h3)

  -- The walk over the finished source counts some extents, and the case ends by their number.
  abbrev pub Walked : ℕ → ℕ → Option (Unit {0}) × K.Machine × ℕ → Type 0
  Walked fuel n r =
      (from : K.File) × (to : K.File) × (s' : K.Machine) × (count : ℕ) × IsIn from
      × IsOut to
      × Holds file_size whole (src s')
      × ((walk K S fuel from to 0 0 s' n).0 ≡ some count)
      × Passed n count r

  -- The second file, the walk, and what comes after it.
  abbrev copy_from : ℕ → K.File → Case K.Machine (Unit {0})
  copy_from fuel from = do
    opened ← run (K.filp_open dst_path (o_rdwr ∷ o_creat ∷ o_excl ∷ []) 0o644)
    elim opened [ err_ptr e ↦ abort | ptr to ↦ walk K S fuel from to 0 0 >>= finish from to ]

  copy_from-run :
      (fuel : ℕ) (from to : K.File) (s : K.Machine) (n : ℕ)
      → let o = K.filp_open dst_path (o_rdwr ∷ o_creat ∷ o_excl ∷ []) 0o644 s in
        o.0 ≡ ptr to
        → copy_from fuel from s n ≡ (walk K S fuel from to 0 0 >>= finish from to) o.1 n
  copy_from-run fuel from to s n e = rw (◌>>=◌, run, e) refl

  copy_from-Passed :
      (fuel : ℕ) (from : K.File) (s : K.Machine) (n : ℕ)
      → file_size < fuel
      → IsIn from
      → Holds file_size whole (src s)
      → Walked fuel n (copy_from fuel from s n)
  copy_from-Passed fuel from s n enough is_in h =
      let o = L.open_out s in
      let s1 = (K.filp_open dst_path (o_rdwr ∷ o_creat ∷ o_excl ∷ []) 0o644 s).1 in
      let v = src s in
      let m = walk K S fuel from o.0 0 0 in
      let w =
        walk-Copied L from o.0 is_in o.2 v fuel 0 0 s1 n (omega (arith, enough, h.0))
          (λ i behind. h.2 i (omega (arith, behind, h.0)))
          (o.3, λ i below. absurd (omega (arith, below)), λ i behind. o.5 i) in
      let s2 = (m s1 n).1 in
      rw (copy_from-run fuel from o.0 s n o.1, went_with m (finish from o.0) s1 n w.0.0 w.0.1 w.1)
        (
          from,
          o.0,
          s1,
          w.0.0,
          is_in,
          o.2,
          subst (Holds file_size whole) (sym o.3) h,
          w.0.1,
          finish-Passed from o.0 w.0.0 s2 n (ap (λ f. f.size) w.2 ∙ h.0)
              (λ i below. ap (λ f. f.bytes i) w.2 ∙ h.1 i below ∙ whole_bytes i below)
              (λ i. w.3 i ∙ ap (λ f. f.bytes i) (sym w.2)),
        )

  -- The source, from the first write to the flush.
  abbrev prepare : ℕ → K.File → Case K.Machine (Unit {0})
  prepare fuel from =
      write_islands K S islands 0 from
      >> (call_ok K S (truncate K src_path (pos file_size))
          >> (call_ok K S (K.vfs_fsync from) >> copy_from fuel from))

  prepare-Passed :
      (fuel : ℕ) (from : K.File) (s : K.Machine) (n : ℕ)
      → file_size < fuel
      → IsIn from
      → Holds 0 (λ _. 0) (src s)
      → Walked fuel n (prepare fuel from s n)
  prepare-Passed fuel from s n enough is_in h =
      let m = write_islands K S islands 0 from in
      let w = write_islands-Leads L from is_in s n h in
      let s1 = (m s n).1 in
      let t = L.truncate_src file_size s1 in
      let s2 = (truncate K src_path (pos file_size) s1).1 in
      let y = L.vfs_fsync_keeps from s2 is_in in
      let s3 = (K.vfs_fsync from s2).1 in
      let flush = call_ok K S (K.vfs_fsync from) in
      let cut = call_ok K S (truncate K src_path (pos file_size)) in
      let h3 =
        subst (Holds file_size whole) (sym (y.1 ∙ t.1))
          (Holds-extended 212992 file_size third (src s1) (omega arith) w.2) in
      rw
        (
          went_fine m (cut >> (flush >> copy_from fuel from)) s n w.0 w.1,
          went cut (flush >> copy_from fuel from) s1 s2 n n
              (call_ok-went L (truncate K src_path (pos file_size)) s1 n t.0),
          went flush (copy_from fuel from) s2 s3 n n (call_ok-went L (K.vfs_fsync from) s2 n y.0),
        )
        (copy_from-Passed fuel from s3 n enough is_in h3)

  abbrev opening : ℕ → Case K.Machine (Unit {0})
  opening fuel = do
    opened ← run (K.filp_open src_path (o_rdwr ∷ o_creat ∷ o_excl ∷ []) 0o644)
    elim opened [ err_ptr e ↦ abort | ptr from ↦ prepare fuel from ]

  opening-run :
      (fuel : ℕ) (from : K.File) (s : K.Machine) (n : ℕ)
      → let o = K.filp_open src_path (o_rdwr ∷ o_creat ∷ o_excl ∷ []) 0o644 s in
        o.0 ≡ ptr from → opening fuel s n ≡ prepare fuel from o.1 n
  opening-run fuel from s n e = rw (◌>>=◌, run, e) refl

  copy_sparse-run :
      (fuel : ℕ) (s : K.Machine) (n : ℕ)
      → (K.kmalloc s).0 ≡ true
      → copy_sparse K S fuel s n ≡ opening fuel (K.kmalloc s).1 n
  unfolding copy_sparse
  copy_sparse-run fuel s n e = run-assert K.kmalloc (λ g. g) (λ _. opening fuel) s n e

  -- On a file system whose seeks report no byte other than 0 as a hole, the case of generic/286 ends,
  -- with fuel for every byte, at its last line: its walk over a source of 256 KB with the three islands
  -- returns a number of extents, no failure is counted if that is three and one if it is not; and the
  -- copy has the size of the file and holds its three islands, with zeros between them.
  pub copy_sparse-Passed :
      (fuel : ℕ) (s : K.Machine) (n : ℕ)
      → file_size < fuel
      → Walked fuel n (copy_sparse K S fuel s n)
  copy_sparse-Passed fuel s n enough =
      let g = L.kmalloc_grants s in
      let o = L.open_in (K.kmalloc s).1 in
      let s1 = (K.filp_open src_path (o_rdwr ∷ o_creat ∷ o_excl ∷ []) 0o644 (K.kmalloc s).1).1 in
      let p = prepare-Passed fuel o.0 s1 n enough o.2 (o.3, λ i below. o.4 i, λ i behind. o.4 i) in
      rw (copy_sparse-run fuel s n g.0, opening-run fuel o.0 (K.kmalloc s).1 n o.1) p
