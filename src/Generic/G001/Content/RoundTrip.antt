-- ===== src/Generic/G001/Content/RoundTrip.antt =====
-- What gen001_write_file writes, gen001_verify_content accepts.
use nfsplayground.Base.{ℕ, ◌≡◌, ◌∙◌, String, true, some, List, [], ◌∷◌}
use nfsplayground.Kernel.{Kernel, ptr, o_rdonly, o_wronly, o_creat, o_trunc}
use nfsplayground.Generic.G001.{Random, original, path_of}
use nfsplayground.Generic.G001.Content.{write_file, verify_content}
use nfsplayground.Generic.G001.Content.Verified.{Reads, verify_content-failures}
use nfsplayground.Generic.G001.Content.Written.{Writes, write_file-contents}

module _ (R : Random) {K : Kernel} {contents : K.File → K.Machine → List ℕ} (L : Reads K contents)
    (M : Writes K contents) where
  -- If memory is granted, the file opens empty for writing, there is room, and it opens for reading
  -- with the contents it was closed with, then writing it and verifying it find no failure.
  pub verify_content-write_file :
      (rel : String) (bytes : ℕ) (s : K.Machine) (n : ℕ) (f g : K.File)
      → let path = path_of K.decimal rel original in
        let a = K.kmalloc s in
        let o = K.filp_open path (o_wronly ∷ o_creat ∷ o_trunc ∷ []) 0o644 a.1 in
        let r = write_file R K rel bytes s n in
        let b = K.kmalloc r.1 in
        let c = K.kmalloc b.1 in
        let p = K.filp_open path (o_rdonly ∷ []) 0 c.1 in
        a.0 ≡ true
        → o.0 ≡ ptr f
        → contents f o.1 ≡ []
        → b.0 ≡ true
        → c.0 ≡ true
        → p.0 ≡ ptr g
        → contents g p.1 ≡ contents f r.1
        → (r.0 ≡ some tt) × ((verify_content R K rel path bytes r.1 r.2).2 ≡ n)
  verify_content-write_file rel bytes s n f g a o new b c p same_contents =
      let w = write_file-contents R M rel bytes s n f a o new in
      let path = path_of K.decimal rel original in
      let r = write_file R K rel bytes s n in
      let v = verify_content-failures R L rel path bytes r.1 r.2 g b c p in
      (w.0, v.1 (same_contents ∙ w.2) ∙ w.1)
