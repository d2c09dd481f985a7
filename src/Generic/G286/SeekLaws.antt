-- ===== src/Generic/G286/SeekLaws.antt =====
-- What the kernel documents of the calls in generic/286.
use Prim.Native.Nat.{min}
use nfsplayground.Base.{ℕ, ◌+◌, ◌-◌, ◌≤◌, ◌<◌, ◌≡◌, List, [], ◌∷◌, length, pos, negsuc, true, ◌⊎◌}
use nfsplayground.Kernel.{Kernel, ptr, o_rdwr, o_creat, o_excl}
use nfsplayground.Paths.{truncate}
use nfsplayground.Files.{read_range}
use nfsplayground.Generic.G075.{byte_at}
use nfsplayground.Generic.Pattern.Verified.{ReadsFile}
use nfsplayground.Generic.G029.Model.{FileView, resized, written}
use nfsplayground.Generic.G286.{src_path, dst_path, Seeks}

-- What the kernel documents of its calls on the two files, where `src` and `dst` are the files, and
-- `Data` says where a file system has data. It may report zeros as data, but no other bytes as holes.
pub record SeeksData (K : Kernel) (S : Seeks K) (IsIn IsOut : K.File → Type 0)
    (src dst : K.Machine → FileView) (Data : K.Machine → ℕ → Type 0) : Type 0 where
  pub open_in :
      (s : K.Machine)
      → let o = K.filp_open src_path (o_rdwr ∷ o_creat ∷ o_excl ∷ []) 0o644 s in
        (f : K.File) × (o.0 ≡ ptr f)
        × IsIn f
        × ((src o.1).size ≡ 0)
        × ((i : ℕ) → (src o.1).bytes i ≡ 0)
  pub open_out :
      (s : K.Machine)
      → let o = K.filp_open dst_path (o_rdwr ∷ o_creat ∷ o_excl ∷ []) 0o644 s in
        (f : K.File) × (o.0 ≡ ptr f)
        × IsOut f
        × (src o.1 ≡ src s)
        × ((dst o.1).size ≡ 0)
        × ((i : ℕ) → (dst o.1).bytes i ≡ 0)
  pub write_in :
      (f : K.File) (buf : List ℕ) (off : ℕ) (s : K.Machine)
      → IsIn f
      → let w = K.kernel_write f buf off s in
        (w.0.0 ≡ pos (length buf)) × (src w.1 ≡ written off buf (src s))
  pub write_out :
      (f : K.File) (buf : List ℕ) (off : ℕ) (s : K.Machine)
      → IsOut f
      → let w = K.kernel_write f buf off s in
        (w.0.0 ≡ pos (length buf)) × (src w.1 ≡ src s) × (dst w.1 ≡ written off buf (dst s))
  pub read_in :
      (f : K.File) (len off : ℕ) (s : K.Machine)
      → IsIn f
      → let r = K.kernel_read f len off s in
        let n = min len ((src s).size - off) in
        (r.0.0 ≡ pos n)
        × (length r.0.1 ≡ n)
        × ((i : ℕ) → i < n → byte_at r.0.1 i ≡ (src s).bytes (off + i))
        × (src r.1 ≡ src s)
        × (dst r.1 ≡ dst s)
  pub seek_data_finds :
      (f : K.File) (off : ℕ) (s : K.Machine)
      → IsIn f
      → let d = S.seek_data f off s in
        (src d.1 ≡ src s)
        × (dst d.1 ≡ dst s)
        × (((d.0 ≡ negsuc 5) × ((i : ℕ) → off ≤ i → i < (src s).size → (src s).bytes i ≡ 0))
            ⊎ ((data_off : ℕ) × (d.0 ≡ pos data_off)
                × (off ≤ data_off)
                × Data d.1 data_off
                × ((i : ℕ) → off ≤ i → i < data_off → (src s).bytes i ≡ 0)))
  pub seek_hole_finds :
      (f : K.File) (data_off : ℕ) (s : K.Machine)
      → IsIn f
      → Data s data_off
      → let h = S.seek_hole f data_off s in
        (src h.1 ≡ src s)
        × (dst h.1 ≡ dst s)
        × ((hole : ℕ) × (h.0 ≡ pos hole) × (data_off < hole) × (hole ≤ (src s).size))
  pub truncate_src :
      (n : ℕ) (s : K.Machine)
      → let t = truncate K src_path (pos n) s in (t.0 ≡ pos 0) × (src t.1 ≡ resized n (src s))
  pub truncate_dst :
      (n : ℕ) (s : K.Machine)
      → let t = truncate K dst_path (pos n) s in
        (t.0 ≡ pos 0) × (src t.1 ≡ src s) × (dst t.1 ≡ resized n (dst s))
  pub vfs_fsync_keeps :
      (f : K.File) (s : K.Machine)
      → IsIn f
      → let y = K.vfs_fsync f s in (y.0 ≡ pos 0) × (src y.1 ≡ src s)
  pub filp_close_keeps :
      (f : K.File) (s : K.Machine)
      → (src (K.filp_close f s) ≡ src s) × (dst (K.filp_close f s) ≡ dst s)
  pub kmalloc_grants :
      (s : K.Machine) → let a = K.kmalloc s in (a.0 ≡ true) × (src a.1 ≡ src s) × (dst a.1 ≡ dst s)
  pub dst-read_src : (len off : ℕ) (s : K.Machine) → dst (read_range K src_path len off s).1 ≡ dst s
  pub reads_src : ReadsFile K src_path (λ s. (src s).size) (λ s. (src s).bytes)
  pub reads_dst : ReadsFile K dst_path (λ s. (dst s).size) (λ s. (dst s).bytes)
