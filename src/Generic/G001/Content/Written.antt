-- ===== src/Generic/G001/Content/Written.antt =====
-- What gen001_write_file leaves in a file.
use mathlib.Core.List.{append_assoc, append-nil}
use nfsplayground.Base.{
  ℕ, zero, suc, ◌+◌, ◌-◌, ◌≤◌, ◌≡◌, refl, sym, ◌∙◌, ap, inl, inr, String, true, false, none, some,
  List, [], ◌∷◌, ◌++◌, length, pos, ◌==ℤ◌, ==ℤ_iff, ◌==◌, ==_iff, if◌then◌else◌, arith, Bool-cases,
  length-append,
}
use nfsplayground.Kernel.{Kernel, ptr, o_wronly, o_creat, o_trunc}
use nfsplayground.Kunit.{◌>>=◌, ◌>>◌, run, assert, step}
use nfsplayground.Generic.G001.{Random, original, path_of}
use nfsplayground.Generic.G001.Content.{chunk_of, seed_for, fill_chunk, write_chunks, write_file}
use nfsplayground.Generic.G001.Content.Streams.{fill_chunk-parts, fill_chunk-length, stream-none}

-- What the kernel documents of writing at the end of a file where there is room.
pub record Writes (K : Kernel) (contents : K.File → K.Machine → List ℕ) : Type 0 where
  pub kernel_write-contents :
      (f : K.File) (bytes : List ℕ) (s : K.Machine)
      → let end = length (contents f s) in
        let w = K.kernel_write f bytes end s in
        (w.0 ≡ (pos (length bytes), end + length bytes)) × (contents f w.1 ≡ contents f s ++ bytes)
  pub contents-filp_close :
      (f : K.File) (s : K.Machine) → contents f (K.filp_close f s) ≡ contents f s

module _ (R : Random) {K : Kernel} {contents : K.File → K.Machine → List ℕ}
    (L : Writes K contents) where
  write_chunks-ended :
      (fuel : ℕ) (f : K.File) (st : R.RndState) (at_pos : ℕ) (s : K.Machine) (n : ℕ)
      → write_chunks R K fuel f 0 st at_pos s n ≡ (some tt, s, n)
  unfolding write_chunks
  write_chunks-ended zero f st at_pos s n = refl
  write_chunks-ended (suc fuel) f st at_pos s n = refl

  -- One round, with the loop as it is on the right.
  write_chunks-round :
      (fuel left : ℕ) (f : K.File) (st : R.RndState) (at_pos : ℕ) (s : K.Machine) (n : ℕ)
      → (left == 0) ≡ false
      → let k = chunk_of left in
        let filled = fill_chunk R k st in
        let w = K.kernel_write f filled.0 at_pos s in
        write_chunks R K (suc fuel) f left st at_pos s n ≡ (
          if w.0.0 ==ℤ pos k
          then write_chunks R K fuel f (left - k) filled.1 w.0.1 w.1 n
          else (none, w.1, suc n))
  unfolding write_chunks
  write_chunks-round fuel left f st at_pos s n some_left =
      let k = chunk_of left in
      let w = K.kernel_write f (fill_chunk R k st).0 at_pos s in
      rw (some_left, ◌>>=◌, ◌>>◌)
        (elim (Bool-cases (w.0.0 ==ℤ pos k)) [ inr short ↦ rw short | inl whole ↦ rw whole ])

  write_chunks-contents :
      (fuel left : ℕ) (f : K.File) (st : R.RndState) (s : K.Machine) (n : ℕ)
      → left ≤ fuel
      → let r = write_chunks R K fuel f left st (length (contents f s)) s n in
        (r.0 ≡ some tt) × (r.2 ≡ n) × (contents f r.1 ≡ contents f s ++ (fill_chunk R left st).0)
  write_chunks-contents zero left f st s n le =
      let e : left ≡ 0 = omega arith in
      rw e (rw (write_chunks-ended, stream-none, append-nil) (refl, refl, refl))
  write_chunks-contents (suc fuel) left f st s n le = elim (Bool-cases (left == 0)) [
    | inl done ↦
        let e = (==_iff left 0).0 done in
        rw e (rw (write_chunks-ended, stream-none, append-nil) (refl, refl, refl))
    | inr some_left ↦
        let k = chunk_of left in
        let end = length (contents f s) in
        let filled = fill_chunk R k st in
        let w = K.kernel_write f filled.0 end s in
        let law = L.kernel_write-contents f filled.0 s in
        let len = fill_chunk-length R k st in
        let e : end + k ≡ length (contents f w.1) =
          omega (arith, len, ap length law.1, length-append (contents f s) filled.0) in
        let rec =
          write_chunks-contents fuel (left - k) f filled.1 w.1 n (ground (arith, some_left, le)) in
        rw (write_chunks-round fuel left f st end s n some_left) (
          rw law.0 (
            rw len (
              rw ((==ℤ_iff (pos k) (pos k)).1 refl) (
                rw e (
                  rec.0,
                  rec.1,
                  rec.2
                      ∙ ap (λ t. t ++ (fill_chunk R (left - k) filled.1).0) law.1
                      ∙ append_assoc (contents f s) filled.0 (fill_chunk R (left - k) filled.1).0
                      ∙ ap (λ t. contents f s ++ t) (sym (fill_chunk-parts R left st)),
                )))))
  ]

  -- If memory is granted, the file opens empty and there is room, gen001_write_file goes through with
  -- no failure, and the file holds the first `bytes` bytes of the stream that its name seeds.
  pub write_file-contents :
      (rel : String) (bytes : ℕ) (s : K.Machine) (n : ℕ) (f : K.File)
      → let a = K.kmalloc s in
        let o =
          K.filp_open
            (path_of K.decimal rel original)
            (o_wronly ∷ o_creat ∷ o_trunc ∷ [])
            0o644
            a.1 in
        a.0 ≡ true
        → o.0 ≡ ptr f
        → contents f o.1 ≡ []
        → let r = write_file R K rel bytes s n in
          (r.0 ≡ some tt) × (r.2 ≡ n) × (contents f r.1 ≡ (fill_chunk R bytes (seed_for R rel)).0)
  unfolding write_file
  write_file-contents rel bytes s n f a o new =
      let opened =
        K.filp_open (path_of K.decimal rel original) (o_wronly ∷ o_creat ∷ o_trunc ∷ []) 0o644
          (K.kmalloc s).1 in
      let r =
        rw new at (write_chunks-contents bytes bytes f (seed_for R rel) opened.1 n (omega arith)) in
      let end = write_chunks R K bytes f bytes (seed_for R rel) 0 opened.1 n in
      rw (a, run, assert, ◌>>=◌, ◌>>◌, a, o)
        (rw (r.0, step, ◌>>=◌) (refl, r.1, L.contents-filp_close f end.1 ∙ r.2))
