-- ===== src/Files/Writing.antt =====
-- What a new file holds after xfs_write_new_file.
use mathlib.Core.List.{append_assoc, append-nil}
use nfsplayground.Base.{
  ℕ, zero, suc, ◌+◌, ◌-◌, ◌%◌, ◌≤◌, ◌<◌, ◌≡◌, refl, sym, ap, ◌∙◌, ◌⊎◌, inl, inr, String, true,
  false, Option, some, List, [], ◌∷◌, ◌++◌, ℤ, pos, negsuc, nonzero, e_io, take, drop, length,
  ◌>>=◌, arith, length-append, length-take, length-drop, take-length, take-append-take-drop,
  ℤ-cases,
}
use nfsplayground.Kernel.{Kernel, Pointer-cases, ptr, err_ptr}
use nfsplayground.Files.{size_mod, new_file_flags, write_loop, write_new_file}

-- What the kernel documents of files that are written from their end on.
pub record WritesAppend (K : Kernel) (contents : K.File → K.Machine → List ℕ) : Type 0 where
  -- a write takes at most what it is given
  pub kernel_write-le :
      (f : K.File) (bytes : List ℕ) (at_pos n : ℕ) (s : K.Machine)
      → (K.kernel_write f bytes at_pos s).0.0 ≡ pos n
      → n ≤ length bytes
  -- a write of `n` bytes at the end adds the first `n`, and moves the position behind them
  pub kernel_write-append :
      (f : K.File) (bytes : List ℕ) (n : ℕ) (s : K.Machine)
      → (K.kernel_write f bytes (length (contents f s)) s).0.0 ≡ pos n
      → (contents f (K.kernel_write f bytes (length (contents f s)) s).1
          ≡ contents f s ++ take n bytes)
        × ((K.kernel_write f bytes (length (contents f s)) s).0.1 ≡ length (contents f s) + n)
  -- a write that fails leaves the contents
  pub kernel_write-failed :
      (f : K.File) (bytes : List ℕ) (at_pos n : ℕ) (s : K.Machine)
      → (K.kernel_write f bytes at_pos s).0.0 ≡ negsuc n
      → contents f (K.kernel_write f bytes at_pos s).1 ≡ contents f s
  pub filp_open-truncates :
      (path : String) (f : K.File) (s : K.Machine)
      → (K.filp_open path new_file_flags 0o644 s).0 ≡ ptr f
      → contents f (K.filp_open path new_file_flags 0o644 s).1 ≡ []
  pub filp_close-contents :
      (f : K.File) (s : K.Machine) → contents f (K.filp_close f s) ≡ contents f s

module _ {K : Kernel} {contents : K.File → K.Machine → List ℕ} (W : WritesAppend K contents) where
  -- The loop has ended with `err`, and the file has grown by the first `k` of `bytes`: by all of
  -- them if there was no error, and by fewer if there was one.
  pub record Grown (f : K.File) (before bytes : List ℕ) (r : Option ℤ) (s : K.Machine)
      : Type 0 where
    pub err : ℤ
    pub count : ℕ
    pub ended : r ≡ some err
    pub grown : contents f s ≡ before ++ take count bytes
    pub whole :
        (nonzero err ≡ false) × (count ≡ length bytes)
        ⊎ (nonzero err ≡ true) × (count < length bytes)

  -- Closing the file leaves its contents.
  Grown-closed :
      {f : K.File} {before bytes : List ℕ} {r : Option ℤ} {s : K.Machine}
      → Grown f before bytes r s
      → Grown f before bytes r (K.filp_close f s)
  Grown-closed {f} {s} g = record {
    err = g.err;
    count = g.count;
    ended = g.ended;
    whole = g.whole;
    grown = W.filp_close-contents f s ∙ g.grown;
  }

  -- One more write in front of the rest of the loop.
  Grown-later :
      {f : K.File} {middle : List ℕ} {r : Option ℤ} {s : K.Machine} (before bytes : List ℕ) (n : ℕ)
      → middle ≡ before ++ take n bytes
      → n ≤ length bytes
      → Grown f middle (drop n bytes) r s
      → Grown f before bytes r s
  Grown-later before bytes n e le g = record {
    err = g.err;
    count = n + g.count;
    ended = g.ended;
    grown =
        g.grown
        ∙ ap (λ m. m ++ take g.count (drop n bytes)) e
        ∙ append_assoc before (take n bytes) (take g.count (drop n bytes))
        ∙ ap (λ t. before ++ t) (take-append-take-drop n g.count bytes);
    whole = elim g.whole [
      | inl (ok, all) ↦ inl (ok, omega (arith, length-drop n bytes))
      | inr (bad, some_left) ↦ inr (bad, omega (arith, length-drop n bytes))
    ];
  }

  write_loop-Grown :
      (fuel : ℕ) (f : K.File) (bytes : List ℕ) (s : K.Machine)
      → length bytes < fuel
      → length bytes < size_mod
      → let r = write_loop K fuel f bytes (length bytes) (length (contents f s)) s in
        Grown f (contents f s) bytes r.0 r.1
  unfolding write_loop
  write_loop-Grown zero f bytes s enough small = absurd (omega arith)
  write_loop-Grown (suc fuel) f [] s enough small = record {
    err = pos 0;
    count = 0;
    ended = refl;
    grown = sym (append-nil (contents f s));
    whole = inl (refl, refl);
  }
  write_loop-Grown (suc fuel) f (b ∷ bytes) s enough small =
      let r = K.kernel_write f (b ∷ bytes) (length (contents f s)) s in
      rw (take-length bytes) (elim (ℤ-cases r.0.0) [
        | inl stuck ↦
            rw (stuck, ◌>>=◌)
              (rw stuck (record {
                err = e_io;
                count = 0;
                ended = refl;
                grown = (W.kernel_write-append f (b ∷ bytes) 0 s stuck).0;
                whole = inr (refl, omega arith);
              }))
        | inr (inl (n, wrote)) ↦
            let (more, moved) = W.kernel_write-append f (b ∷ bytes) (suc n) s wrote in
            let le = W.kernel_write-le f (b ∷ bytes) (length (contents f s)) (suc n) s wrote in
            let at_end : r.0.1 ≡ length (contents f r.1) =
              moved
              ∙ rw more (
                  omega (
                    arith,
                    length-append (contents f s) (take (suc n) (b ∷ bytes)),
                    length-take (suc n) (b ∷ bytes),
                  )) in
            let left : (suc (length bytes) + size_mod - suc n) % size_mod ≡ length (drop n bytes) =
              omega (arith, length-drop n bytes) in
            rw (wrote, ◌>>=◌)
              (rw (wrote) (
                rw (at_end, left)
                  (Grown-later (contents f s) (b ∷ bytes) (suc n) more le (
                    write_loop-Grown fuel f (drop n bytes) r.1 (omega (arith, length-drop n bytes))
                      (omega (arith, length-drop n bytes))))))
        | inr (inr (n, failed)) ↦
            rw (failed, ◌>>=◌)
              (rw failed (record {
                err = negsuc n;
                count = 0;
                ended = refl;
                grown =
                    W.kernel_write-failed f (b ∷ bytes) (length (contents f s)) n s failed
                    ∙ sym (append-nil (contents f s));
                whole = inr (refl, omega arith);
              }))
      ])

  -- With fewer than 2 ^ 64 bytes to write, xfs_write_new_file ends: with the error of the open, or
  -- else with a file that holds all the bytes if the result is 0, and a proper beginning of them if
  -- the result is an error.
  pub write_new_file-contents :
      (path : String) (bytes : List ℕ) (s : K.Machine)
      → length bytes < size_mod
      → ((e : ℤ) × ((K.filp_open path new_file_flags 0o644 s).0 ≡ err_ptr e)
          × ((write_new_file K path bytes s).0 ≡ some e))
        ⊎ ((f : K.File) × ((K.filp_open path new_file_flags 0o644 s).0 ≡ ptr f)
            × Grown f [] bytes (write_new_file K path bytes s).0 (write_new_file K path bytes s).1)
  unfolding write_new_file
  write_new_file-contents path bytes s small =
      let o = K.filp_open path new_file_flags 0o644 s in
      elim (Pointer-cases o.0) [
        | inr (e, failed) ↦ inl (e, failed, rw (failed, ◌>>=◌))
        | inl (f, opened) ↦
            let g = write_loop-Grown (suc (length bytes)) f bytes o.1 (omega arith) small in
            let new = W.filp_open-truncates path f s opened in
            inr (f, opened, rw (opened, ◌>>=◌) (Grown-closed (rw new at g)))
      ]
