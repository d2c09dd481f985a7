-- ===== src/Generic/G286/Compare.antt =====
-- The comparison at the end of generic/286.
use Prim.Native.Nat.{min}
use nfsplayground.Base.{
  String, ℕ, suc, ◌+◌, ◌-◌, ◌<◌, ◌≡◌, refl, sym, ap, ◌∙◌, arith, List, [], ◌∷◌, length, some, pos,
  ◌==ℤ◌, ==ℤ_iff, true, same, same_iff, State, ℤ,
}
use nfsplayground.Kernel.{Kernel}
use nfsplayground.Files.{read_range}
use nfsplayground.Kunit.{
  Case, ◌>>=◌, ◌>>◌, run, assert, expect, Fine, Fine-run, expect-Fine, run-assert, went,
}
use nfsplayground.Generic.G075.{byte_at}
use nfsplayground.Generic.Pattern.Verified.{ReadsFile, read_range-bytes}
use nfsplayground.Generic.G029.Model.{FileView}
use nfsplayground.Generic.G286.{src_path, dst_path, file_size, Seeks, call_ok, compare_files}
use nfsplayground.Generic.G286.SeekLaws.{SeeksData}
use nfsplayground.Generic.G286.Islands.{island_byte}

-- Lists of one length with the same bytes.
same_bytes :
    (a b : List ℕ)
    → length a ≡ length b
    → ((i : ℕ) → i < length a → byte_at a i ≡ byte_at b i)
    → a ≡ b
same_bytes [] [] e h = refl
same_bytes [] (y ∷ ys) e h = absurd (omega (arith, e))
same_bytes (x ∷ xs) [] e h = absurd (omega (arith, e))
same_bytes (x ∷ xs) (y ∷ ys) e h =
    let head = h 0 (omega arith) in
    let tail = same_bytes xs ys (omega (arith, e)) (λ i below. h (suc i) (omega (arith, below))) in
    cc

module _ {K : Kernel} {S : Seeks K} {IsIn IsOut : K.File → Type 0} {src dst : K.Machine → FileView}
    {Data : K.Machine → ℕ → Type 0} (L : SeeksData K S IsIn IsOut src dst Data) where
  -- The copy holds what was written, and zeros between.
  abbrev pub Done : K.Machine → Type 0
  Done s = ((dst s).size ≡ file_size) × ((i : ℕ) → i < file_size → (dst s).bytes i ≡ island_byte i)

  -- Both files hold it.
  abbrev pub Both : K.Machine → Type 0
  Both s =
      ((src s).size ≡ file_size)
      × ((i : ℕ) → i < file_size → (src s).bytes i ≡ island_byte i)
      × Done s

  pub Both-same : (s s' : K.Machine) → src s' ≡ src s → dst s' ≡ dst s → Both s → Both s'
  Both-same s s' e e' h = (
    ap (λ v. v.size) e ∙ h.0,
    λ i below. ap (λ v. v.bytes i) e ∙ h.1 i below,
    (ap (λ v. v.size) e' ∙ h.2.0, λ i below. ap (λ v. v.bytes i) e' ∙ h.2.1 i below),
  )

  -- A file of that size with those bytes is read whole.
  read_whole :
      (path : String) (f : K.Machine → FileView)
      → ReadsFile K path (λ s. (f s).size) (λ s. (f s).bytes)
      → (s : K.Machine) → (f s).size ≡ file_size
      → ((i : ℕ) → i < file_size → (f s).bytes i ≡ island_byte i)
      → let r = read_range K path file_size 0 s in
        (r.0.0 ==ℤ pos file_size ≡ true)
        × (length r.0.1 ≡ file_size)
        × ((i : ℕ) → i < file_size → byte_at r.0.1 i ≡ island_byte i)
        × ((f r.1).size ≡ (f s).size)
        × ((f r.1).bytes ≡ (f s).bytes)
  read_whole path f reads s e bytes =
      let r = read_range-bytes reads file_size 0 s in
      let all : min file_size ((f s).size - 0) ≡ file_size = omega (arith, e) in
      (
        (==ℤ_iff _ (pos file_size)).1 (r.0 ∙ ap pos all),
        r.1 ∙ all,
        λ i below.
            let at_start : 0 + i ≡ i = omega arith in
            r.2 i (omega (arith, below, all)) ∙ ap (f s).bytes at_start ∙ bytes i below,
        r.3,
        r.4,
      )

  pub call_ok-went :
      (m : State K.Machine ℤ) (s : K.Machine) (n : ℕ)
      → (m s).0 ≡ pos 0
      → call_ok K S m s n ≡ (some tt, (m s).1, n)
  call_ok-went m s n e = rw (◌>>=◌, run, e) refl

  -- The second read and the comparison.
  abbrev compare_with : List ℕ → Case K.Machine (Unit {0})
  compare_with a =
      run (read_range K dst_path file_size 0)
      >>= (λ x. assert (x.0 ==ℤ pos file_size) >> expect (same a x.1))

  compare_with-Fine :
      (a : List ℕ) (s : K.Machine) (n : ℕ)
      → length a ≡ file_size
      → ((i : ℕ) → i < file_size → byte_at a i ≡ island_byte i)
      → Done s
      → Fine Done n (compare_with a s n)
  compare_with-Fine a s n e bytes h =
      let r = read_whole dst_path dst L.reads_dst s h.0 h.1 in
      let b = (read_range K dst_path file_size 0 s).0.1 in
      let equal : same a b ≡ true = (same_iff a b).1 (
        same_bytes a b (e ∙ sym r.1) (λ i below.
          let below' : i < file_size = omega (arith, below, e) in
          bytes i below' ∙ sym (r.2 i below'))) in
      Fine-run Done (read_range K dst_path file_size 0) (λ x. x.0 ==ℤ pos file_size)
        (λ x. expect (same a x.1)) s n r.0
        (expect-Fine Done (same a b) (read_range K dst_path file_size 0 s).1 n equal
          (r.3 ∙ h.0, λ i below. ap (λ g. g i) r.4 ∙ h.1 i below))

  compare_files-run :
      (s : K.Machine) (n : ℕ)
      → let g = K.kmalloc s in
        let g' = K.kmalloc g.1 in
        let a = read_range K src_path file_size 0 g'.1 in
        g.0 ≡ true
        → g'.0 ≡ true
        → a.0.0 ==ℤ pos file_size ≡ true
        → compare_files K S s n ≡ compare_with a.0.1 a.1 n
  unfolding compare_files
  compare_files-run s n e e' all =
      let s1 = (K.kmalloc s).1 in
      let s2 = (K.kmalloc s1).1 in
      let read : Case K.Machine (Unit {0}) =
        run (read_range K src_path file_size 0)
        >>= (λ x. assert (x.0 ==ℤ pos file_size) >> compare_with x.1) in
      went (assert (K.kmalloc s).0) (assert (K.kmalloc s1).0 >> read) s2 s2 n n
        (ap (λ b. assert b s2 n) e)
      ∙ went (assert (K.kmalloc s1).0) read s2 s2 n n (ap (λ b. assert b s2 n) e')
      ∙ run-assert (read_range K src_path file_size 0) (λ x. x.0 ==ℤ pos file_size)
          (λ x. compare_with x.1) s2 n all

  pub compare_files-Fine : (s : K.Machine) (n : ℕ) → Both s → Fine Done n (compare_files K S s n)
  compare_files-Fine s n h =
      let g = L.kmalloc_grants s in
      let s1 = (K.kmalloc s).1 in
      let g' = L.kmalloc_grants s1 in
      let s2 = (K.kmalloc s1).1 in
      let h2 = Both-same s s2 (g'.1 ∙ g.1) (g'.2 ∙ g.2) h in
      let r = read_whole src_path src L.reads_src s2 h2.0 h2.1 in
      let a = read_range K src_path file_size 0 s2 in
      let e = L.dst-read_src file_size 0 s2 in
      rw (compare_files-run s n g.0 g'.0 r.0) (
        compare_with-Fine a.0.1 a.1 n r.1 r.2
          (ap (λ v. v.size) e ∙ h2.2.0, λ i below. ap (λ v. v.bytes i) e ∙ h2.2.1 i below))
