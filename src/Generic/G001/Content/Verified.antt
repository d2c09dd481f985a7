-- ===== src/Generic/G001/Content/Verified.antt =====
-- What it takes for a file to pass gen001_verify_content.
use nfsplayground.Base.{
  same, same_iff, ℕ, zero, suc, ◌+◌, ◌-◌, ◌≤◌, ◌≡◌, ◌≢◌, refl, sym, ◌∙◌, ap, inl, inr, ◌↔◌, String,
  true, false, none, some, List, [], ◌∷◌, ◌++◌, length, take, drop, pos, ◌==ℤ◌, ==ℤ_iff, ne_of_==ℤ,
  ◌==◌, ==_iff, if◌then◌else◌, arith, Bool-cases, List-cases, take-append-drop, drop-drop,
  take-append, drop-append,
}
use nfsplayground.Kernel.{Kernel, ptr, o_rdonly}
use nfsplayground.Kunit.{◌>>=◌, ◌>>◌, run, assert}
use nfsplayground.Generic.G001.{Random}
use nfsplayground.Generic.G001.Content.{
  chunk_of, seed_for, fill_chunk, check_end, verify_loop, verify_content,
}
use nfsplayground.Generic.G001.Content.Streams.{stream-none, fill_chunk-parts, fill_chunk-length}

-- What the kernel documents of reading a local file that nothing else writes: a read returns what is
-- there, up to the length asked for, and changes no contents.
pub record Reads (K : Kernel) (contents : K.File → K.Machine → List ℕ) : Type 0 where
  pub kernel_read-contents :
      (f : K.File) (len at_pos : ℕ) (s : K.Machine)
      → let got = take len (drop at_pos (contents f s)) in
        (K.kernel_read f len at_pos s).0 ≡ (pos (length got), got, at_pos + length got)
  pub contents-kernel_read :
      (f g : K.File) (len at_pos : ℕ) (s : K.Machine)
      → contents g (K.kernel_read f len at_pos s).1 ≡ contents g s

pos-inj : {m n : ℕ} → pos m ≡ pos n → m ≡ n
pos-inj e = cc

true≢false : true ≢ false
true≢false e = cc

module _ (R : Random) {K : Kernel} {contents : K.File → K.Machine → List ℕ}
    (L : Reads K contents) where
  -- The check at the end finds no failure exactly if nothing is left there.
  check_end-failures :
      (f : K.File) (at_pos : ℕ) (s : K.Machine) (n : ℕ)
      → ((check_end R K f at_pos s n).2 ≡ n) ↔ (drop at_pos (contents f s) ≡ [])
  unfolding check_end
  check_end-failures f at_pos s n = elim (List-cases (drop at_pos (contents f s))) [
    | inl e ↦ rw (L.kernel_read-contents f 1 at_pos s, ◌>>◌) (rw e (λ _. refl, λ _. refl))
    | inr (x, rest, e) ↦
        rw (L.kernel_read-contents f 1 at_pos s, ◌>>◌)
          (rw e (λ h. absurd (omega (arith, h)), λ h. cc))
  ]

  -- A round of the loop, on a read that is as long as asked and has the bytes that are expected.
  round-rest :
      (left : ℕ) (st : R.RndState) (rest : List ℕ)
      → let n = chunk_of left in
        take n rest ≡ (fill_chunk R n st).0
        → (drop n rest ≡ (fill_chunk R (left - n) (fill_chunk R n st).1).0)
          ↔ (rest ≡ (fill_chunk R left st).0)
  round-rest left st rest e =
      let n = chunk_of left in
      let filled = (fill_chunk R n st).0 in
      let more = (fill_chunk R (left - n) (fill_chunk R n st).1).0 in
      let p = fill_chunk-parts R left st in
      (
        λ h.
            sym (take-append-drop n rest)
            ∙ ap (λ t. t ++ drop n rest) e
            ∙ ap (λ t. filled ++ t) h
            ∙ sym p,
        λ h.
            ap (drop n) (h ∙ p)
            ∙ ap (λ k. drop k (filled ++ more)) (sym (fill_chunk-length R n st))
            ∙ drop-append filled more,
      )

  -- What is the stream begins with its first chunk.
  stream-begins :
      (left : ℕ) (st : R.RndState) (rest : List ℕ)
      → rest ≡ (fill_chunk R left st).0
      → take (chunk_of left) rest ≡ (fill_chunk R (chunk_of left) st).0
  stream-begins left st rest h =
      let n = chunk_of left in
      let filled = (fill_chunk R n st).0 in
      let more = (fill_chunk R (left - n) (fill_chunk R n st).1).0 in
      ap (take n) (h ∙ fill_chunk-parts R left st)
      ∙ ap (λ k. take k (filled ++ more)) (sym (fill_chunk-length R n st))
      ∙ take-append filled more

  -- One round, with the loop as it is on the right.
  verify_loop-round :
      (fuel left : ℕ) (f : K.File) (st : R.RndState) (at_pos : ℕ) (s : K.Machine) (n : ℕ)
      → (left == 0) ≡ false
      → let k = chunk_of left in
        let r = K.kernel_read f k at_pos s in
        let filled = fill_chunk R k st in
        verify_loop R K (suc fuel) f left st at_pos s n ≡ (
          if r.0.0 ==ℤ pos k
          then (if same filled.0 r.0.1
              then verify_loop R K fuel f (left - k) filled.1 r.0.2 r.1 n
              else (some tt, K.filp_close f r.1, suc n))
          else (none, r.1, suc n))
  unfolding verify_loop
  verify_loop-round fuel left f st at_pos s n some_left =
      let k = chunk_of left in
      let r = K.kernel_read f k at_pos s in
      rw (some_left, ◌>>=◌, ◌>>◌)
        (elim (Bool-cases (r.0.0 ==ℤ pos k)) [
          | inr short ↦ rw short
          | inl long ↦ rw long (elim (Bool-cases (same (fill_chunk R k st).0 r.0.1)) [
            | inl fine ↦ rw fine
            | inr differs ↦ rw differs
          ])
        ])

  verify_loop-ended :
      (fuel : ℕ) (f : K.File) (st : R.RndState) (at_pos : ℕ) (s : K.Machine) (n : ℕ)
      → verify_loop R K fuel f 0 st at_pos s n ≡ check_end R K f at_pos s n
  unfolding verify_loop
  verify_loop-ended zero f st at_pos s n = refl
  verify_loop-ended (suc fuel) f st at_pos s n = refl

  -- From a place in the file on, the loop finds no failure exactly if the rest of the file is the
  -- rest of the stream.
  verify_loop-failures :
      (fuel left : ℕ) (f : K.File) (st : R.RndState) (at_pos : ℕ) (s : K.Machine) (n : ℕ)
      → left ≤ fuel
      → ((verify_loop R K fuel f left st at_pos s n).2 ≡ n)
        ↔ (drop at_pos (contents f s) ≡ (fill_chunk R left st).0)
  verify_loop-failures zero left f st at_pos s n le =
      let e : left ≡ 0 = omega arith in
      rw e (rw (verify_loop-ended, stream-none) (check_end-failures f at_pos s n))
  verify_loop-failures (suc fuel) left f st at_pos s n le = elim (Bool-cases (left == 0)) [
    | inl done ↦
        let e = (==_iff left 0).0 done in
        rw e (rw (verify_loop-ended, stream-none) (check_end-failures f at_pos s n))
    | inr some_left ↦
        let k = chunk_of left in
        let rest = drop at_pos (contents f s) in
        let got = take k rest in
        let filled = fill_chunk R k st in
        let s' = (K.kernel_read f k at_pos s).1 in
        rw (verify_loop-round fuel left f st at_pos s n some_left) (
          rw (L.kernel_read-contents f k at_pos s) (elim (Bool-cases (pos (length got) ==ℤ pos k)) [
            | inr short ↦
                let begins : rest ≡ (fill_chunk R left st).0 → length got ≡ k =
                  λ h. ap length (stream-begins left st rest h) ∙ fill_chunk-length R k st in
                rw short (
                  λ h. absurd (omega (arith, h)),
                  λ h. absurd (ne_of_==ℤ (pos (length got)) (pos k) short (ap pos (begins h))),
                )
            | inl long ↦ rw long (elim (Bool-cases (same filled.0 got)) [
              | inl fine ↦
                  let e = pos-inj ((==ℤ_iff (pos (length got)) (pos k)).0 long) in
                  let more = round-rest left st rest (sym ((same_iff filled.0 got).0 fine)) in
                  let there =
                    drop-drop at_pos k (contents f s)
                    ∙ sym (ap (drop (at_pos + k)) (L.contents-kernel_read f f k at_pos s)) in
                  let rec =
                    verify_loop-failures fuel (left - k) f filled.1 (at_pos + k) s' n
                      (ground (arith, some_left, le)) in
                  rw fine (rw e (λ h. more.0 (there ∙ rec.0 h), λ h. rec.1 (sym there ∙ more.1 h)))
              | inr differs ↦
                  let begins : rest ≡ (fill_chunk R left st).0 → same filled.0 got ≡ true =
                    λ h. (same_iff filled.0 got).1 (sym (stream-begins left st rest h)) in
                  rw differs (
                    λ h. absurd (omega (arith, h)),
                    λ h. absurd (true≢false (sym (begins h) ∙ differs)),
                  )
            ])
          ]))
  ]

  -- If memory is granted, the file opens and reads return what is there, then gen001_verify_content
  -- ends without a failure exactly if the file holds the first `bytes` bytes of the stream that its
  -- name seeds, and nothing more.
  pub verify_content-failures :
      (rel path : String) (bytes : ℕ) (s : K.Machine) (n : ℕ) (f : K.File)
      → let a = K.kmalloc s in
        let b = K.kmalloc a.1 in
        let o = K.filp_open path (o_rdonly ∷ []) 0 b.1 in
        a.0 ≡ true
        → b.0 ≡ true
        → o.0 ≡ ptr f
        → ((verify_content R K rel path bytes s n).2 ≡ n)
          ↔ (contents f o.1 ≡ (fill_chunk R bytes (seed_for R rel)).0)
  unfolding verify_content
  verify_content-failures rel path bytes s n f a b o =
      let s' = (K.filp_open path (o_rdonly ∷ []) 0 (K.kmalloc (K.kmalloc s).1).1).1 in
      rw (a, run, assert, ◌>>=◌, b, b, a, o)
        (verify_loop-failures bytes bytes f (seed_for R rel) 0 s' n (omega arith))
