-- ===== src/Generic/G001/Chain/Closed.antt =====
-- Every chain is closed before the next iteration.
use nfsplayground.Base.{
  ℕ, zero, suc, ◌≡◌, refl, sym, ap, ◌%◌, ◌∙◌, String, some, List, [], ◌∷◌, nonzero, not, replicate,
  length, arith,
}
use nfsplayground.Kernel.{Kernel}
use nfsplayground.Paths.{rename}
use nfsplayground.Kunit.{◌>>=◌, run, assert, pass, bind-some}
use nfsplayground.Generic.G001.{Random, numbered, last}
use nfsplayground.Generic.G001.Content.{copy}
use nfsplayground.Generic.G001.Chain.{
  config, nfiles, ncopy, entry_at, source_link, count_link, copies, unlink_from, close_chain,
  close_chains, chain, path,
}

some-inj : {A : Type 0} {x y : A} → some x ≡ some y → x ≡ y
some-inj e = cc

module _ (R : Random) (K : Kernel) where
  close_chain-zero :
      (rel : String) (link : ℕ) (s : K.Machine) (n m : ℕ)
      → (close_chain R K rel link s n).0 ≡ some m
      → m ≡ 0
  unfolding close_chain
  close_chain-zero rel zero s n m e = cc
  close_chain-zero rel (suc k) s n m e =
      let renamed = run (rename K (path R K rel (numbered k)) (path R K rel last)) in
      let ok = renamed >>= (λ err. assert (not (nonzero err))) in
      let a = bind-some ok (λ _. unlink_from R K k 0 rel >>= (λ _. pass 0)) s n m e in
      let b = bind-some (unlink_from R K k 0 rel) (λ _. pass 0) (ok s n).1 (ok s n).2 m a.2 in
      sym (some-inj b.2)

  length-count_link : (i : ℕ) (links : List ℕ) → length (count_link i links) ≡ length links
  unfolding count_link
  length-count_link i [] = refl
  length-count_link zero (link ∷ links) = refl
  length-count_link (suc i) (link ∷ links) = omega (arith, length-count_link i links)

  length-copies :
      (fuel left : ℕ) (pick : R.RndState) (links links' : List ℕ) (s : K.Machine) (n : ℕ)
      → (copies R K fuel left pick links s n).0 ≡ some links'
      → length links' ≡ length links
  unfolding copies
  length-copies fuel zero pick links links' s n e = ap length (sym (some-inj e))
  length-copies fuel (suc left) pick links links' s n e =
      let drawn = R.prandom_u32_state pick in
      let i = drawn.0 % nfiles in
      let entry = entry_at i config links in
      let c =
        copy R K fuel (path R K entry.0 (source_link entry.1))
          (path R K entry.0 (numbered entry.1)) in
      let b = bind-some c (λ _. copies R K fuel left drawn.1 (count_link i links)) s n links' e in
      length-copies fuel left drawn.1 (count_link i links) links' (c s n).1 (c s n).2 b.2
      ∙ length-count_link i links

  close_chains-zero :
      (entries : List (String × ℕ)) (links links' : List ℕ) (s : K.Machine) (n : ℕ)
      → length links ≡ length entries
      → (close_chains R K entries links s n).0 ≡ some links'
      → links' ≡ replicate (length entries) 0
  unfolding close_chains
  close_chains-zero [] [] links' s n h e = sym (some-inj e)
  close_chains-zero [] (link ∷ links) links' s n h e = absurd (omega (arith, h))
  close_chains-zero (entry ∷ entries) [] links' s n h e = absurd (omega (arith, h))
  close_chains-zero (entry ∷ entries) (link ∷ links) links' s n h e =
      let c = close_chain R K entry.0 link in
      let rest = close_chains R K entries links in
      let a = bind-some c (λ l. rest >>= (λ ls. pass (l ∷ ls))) s n links' e in
      let b = bind-some rest (λ ls. pass (a.0 ∷ ls)) (c s n).1 (c s n).2 links' a.2 in
      let z = close_chain-zero entry.0 link s n a.0 a.1 in
      let zs = close_chains-zero entries links b.0 (c s n).1 (c s n).2 (omega (arith, h)) b.1 in
      sym (some-inj b.2) ∙ ap (λ l. l ∷ b.0) z ∙ ap (λ ls. 0 ∷ ls) zs

  -- An iteration of generic/001 that goes through has closed every chain: from as many links as there
  -- are files, it ends with no link counted for any file, so the next one starts from the originals.
  chain-closed :
      (fuel iter : ℕ) (links links' : List ℕ) (s : K.Machine) (n : ℕ)
      → length links ≡ length config
      → (chain R K fuel iter links s n).0 ≡ some links'
      → links' ≡ replicate (length config) 0
  unfolding chain
  chain-closed fuel iter links links' s n h e =
      let c = copies R K fuel ncopy (R.prandom_seed_state iter) links in
      let b = bind-some c (close_chains R K config) s n links' e in
      let l = length-copies fuel ncopy (R.prandom_seed_state iter) links b.0 s n b.1 in
      close_chains-zero config b.0 links' (c s n).1 (c s n).2 (l ∙ h) b.2
