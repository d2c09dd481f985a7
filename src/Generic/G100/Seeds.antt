-- ===== src/Generic/G100/Seeds.antt =====
-- The walk that verifies the tree of generic/100 counts its files as the one that built it.
use nfsplayground.Base.{
  ℕ, zero, suc, ◌+◌, ◌<◌, ◌%◌, ◌^◌, ◌≡◌, sym, ◌∙◌, arith, not, some, List, nonzero, Bool-cases,
  Option-cases, inl, inr, State, ℤ, pos, ◌==ℤ◌, String,
}
use nfsplayground.Kernel.{Kernel}
use nfsplayground.Paths.{mkdir}
use nfsplayground.Files.{write_new_file, read_range}
use nfsplayground.Kunit.{◌>>=◌, ◌>>◌, run, assert, expect, bind-some, none≢some}
use nfsplayground.Generic.G100.{
  next, fill, child, for_seed, build_file, build, verify_file, verify, verify_dir, files, dirs,
  file_size, Body, matches_from,
}

some-inj : {A : Type 0} {a b : A} → some a ≡ some b → a ≡ b
some-inj e = cc

abbrev pub scaled : ℕ → ℕ → ℕ
scaled zero k = 0
scaled (suc left) k = k + scaled left k

-- The files in a tree of that depth.
abbrev pub files_below : ℕ → ℕ
files_below zero = scaled files 1
files_below (suc depth) = scaled files 1 + scaled dirs (files_below depth)

abbrev pub advanced : ℕ → ℕ → ℕ
advanced seed k = (seed + k) % 2 ^ 32

module _ (K : Kernel) (iterate_dir : K.File → State K.Machine (ℤ × List (List ℕ))) where
  abbrev Advances : Body K iterate_dir ℕ → ℕ → ℕ → Type 0
  Advances m seed k =
      (s : K.Machine) (n : ℕ) (seed' : ℕ) → (m s n).0 ≡ some seed' → seed' ≡ advanced seed k

  for_seed-Advances :
      (left i : ℕ) (body : ℕ → ℕ → Body K iterate_dir ℕ) (k seed : ℕ)
      → seed < 2 ^ 32
      → ((i seed : ℕ) → seed < 2 ^ 32 → Advances (body i seed) seed k)
      → Advances (for_seed K iterate_dir left i body seed) seed (scaled left k)
  unfolding for_seed
  for_seed-Advances zero i body k seed small each s n seed' h = omega (arith, some-inj h, small)
  for_seed-Advances (suc left) i body k seed small each s n seed' h =
      let a =
        bind-some (body i seed) (λ x. for_seed K iterate_dir left (suc i) body x) s n seed' h in
      let r = body i seed s n in
      let one = each i seed small s n a.0 a.1 in
      let rest =
        for_seed-Advances left (suc i) body k a.0 (omega (arith, one)) each r.1 r.2 seed' a.2 in
      omega (arith, one, rest)

  build_file-Advances :
      (path : String) (i seed : ℕ) → Advances (build_file K iterate_dir path i seed) seed 1
  unfolding build_file
  build_file-Advances path i seed s n seed' h =
      let w = write_new_file K (child K iterate_dir path "f" i) (fill (next seed)) s in
      elim (Option-cases w.0) [
        | inl none_left ↦ absurd (none≢some seed' (rw (◌>>=◌, run, none_left) at h))
        | inr (e, wrote) ↦
            let h' = rw (◌>>=◌, run, wrote) at h in
            elim (Bool-cases (nonzero e)) [
              | inl failed ↦ absurd (none≢some seed' (rw (◌>>=◌, ◌>>◌, assert, failed) at h'))
              | inr done ↦ sym (some-inj (rw (◌>>=◌, ◌>>◌, assert, done) at h'))
            ]
      ]

  verify_file-Advances :
      (path : String) (i seed : ℕ) → Advances (verify_file K iterate_dir path i seed) seed 1
  unfolding verify_file
  verify_file-Advances path i seed s n seed' h =
      let r = read_range K (child K iterate_dir path "f" i) file_size 0 s in
      elim (Bool-cases (r.0.0 ==ℤ pos file_size)) [
        | inl all ↦ elim (Bool-cases (matches_from file_size 0 (next seed) r.0.1)) [
          | inl same ↦ sym (some-inj (rw (◌>>=◌, ◌>>◌, run, assert, expect, all, same) at h))
          | inr differ ↦ sym (some-inj (rw (◌>>=◌, ◌>>◌, run, assert, expect, all, differ) at h))
        ]
        | inr short ↦ absurd (none≢some seed' (rw (◌>>=◌, ◌>>◌, run, assert, short) at h))
      ]

  build-Advances :
      (depth : ℕ) (path : String) (seed : ℕ)
      → seed < 2 ^ 32
      → Advances (build K iterate_dir depth path seed) seed (files_below depth)
  unfolding build
  build-Advances zero path seed small s n seed' h =
      for_seed-Advances files 0 (build_file K iterate_dir path) 1 seed small
        (λ i seed small. build_file-Advances path i seed) s n seed' h
  build-Advances (suc depth) path seed small s n seed' h =
      let own = for_seed K iterate_dir files 0 (build_file K iterate_dir path) seed in
      let in_dir : ℕ → ℕ → Body K iterate_dir ℕ = λ i seed.
        run (mkdir K (child K iterate_dir path "d" i)) >>= (λ err.
          assert (not (nonzero err))
          >> build K iterate_dir depth (child K iterate_dir path "d" i) seed) in
      let a = bind-some own (for_seed K iterate_dir dirs 0 in_dir) s n seed' h in
      let one =
        for_seed-Advances files 0 (build_file K iterate_dir path) 1 seed small
          (λ i seed small. build_file-Advances path i seed) s n a.0 a.1 in
      let below : (i seed : ℕ) → seed < 2 ^ 32 → Advances (in_dir i seed) seed (files_below depth) =
        λ i seed small s n out h.
          let made = mkdir K (child K iterate_dir path "d" i) s in
          elim (Bool-cases (nonzero made.0)) [
            | inl failed ↦ absurd (none≢some out (rw (◌>>=◌, ◌>>◌, run, assert, failed) at h))
            | inr done ↦
                build-Advances depth (child K iterate_dir path "d" i) seed small made.1 n out
                  (rw (◌>>=◌, ◌>>◌, run, assert, done, done) at h)
          ] in
      let rest =
        for_seed-Advances dirs 0 in_dir (files_below depth) a.0 (omega (arith, one)) below
          (own s n).1 (own s n).2 seed' a.2 in
      omega (arith, one, rest)

  verify-Advances :
      (fuel depth : ℕ) (path : String) (seed : ℕ)
      → seed < 2 ^ 32
      → Advances (verify K iterate_dir fuel depth path seed) seed (files_below depth)
  unfolding verify
  verify-Advances fuel zero path seed small s n seed' h =
      let a =
        bind-some (verify_dir K iterate_dir fuel path 0)
          (λ _. for_seed K iterate_dir files 0 (verify_file K iterate_dir path) seed) s n seed' h in
      let r = verify_dir K iterate_dir fuel path 0 s n in
      for_seed-Advances files 0 (verify_file K iterate_dir path) 1 seed small
        (λ i seed small. verify_file-Advances path i seed) r.1 r.2 seed' a.2
  verify-Advances fuel (suc depth) path seed small s n seed' h =
      let own = for_seed K iterate_dir files 0 (verify_file K iterate_dir path) in
      let in_dir : ℕ → ℕ → Body K iterate_dir ℕ =
        λ i seed. verify K iterate_dir fuel depth (child K iterate_dir path "d" i) seed in
      let c =
        bind-some (verify_dir K iterate_dir fuel path dirs)
          (λ _. own seed >>= for_seed K iterate_dir dirs 0 in_dir) s n seed' h in
      let v = verify_dir K iterate_dir fuel path dirs s n in
      let a = bind-some (own seed) (for_seed K iterate_dir dirs 0 in_dir) v.1 v.2 seed' c.2 in
      let one =
        for_seed-Advances files 0 (verify_file K iterate_dir path) 1 seed small
          (λ i seed small. verify_file-Advances path i seed) v.1 v.2 a.0 a.1 in
      let below : (i seed : ℕ) → seed < 2 ^ 32 → Advances (in_dir i seed) seed (files_below depth) =
        λ i seed small. verify-Advances fuel depth (child K iterate_dir path "d" i) seed small in
      let rest =
        for_seed-Advances dirs 0 in_dir (files_below depth) a.0 (omega (arith, one)) below
          (own seed v.1 v.2).1 (own seed v.1 v.2).2 seed' a.2 in
      omega (arith, one, rest)

  -- Whatever the file systems do, on trees of one depth, from one seed and wherever the two trees are,
  -- the walk that verifies and the walk that builds, if both go through, have drawn as many seeds and
  -- end with the same one: three for every directory of the tree, on 32 bits.
  pub verify-build :
      (fuel depth : ℕ) (built checked : String) (seed : ℕ) (s t : K.Machine) (n k a b : ℕ)
      → seed < 2 ^ 32
      → (build K iterate_dir depth built seed s n).0 ≡ some a
      → (verify K iterate_dir fuel depth checked seed t k).0 ≡ some b
      → (a ≡ b) × (a ≡ advanced seed (files_below depth))
  verify-build fuel depth built checked seed s t n k a b small g h =
      let x = build-Advances depth built seed small s n a g in
      let y = verify-Advances fuel depth checked seed small t k b h in (x ∙ sym y, x)
