-- ===== src/Examples/Ports.antt =====
-- The theorems about the ports, at concrete inputs.
use nfsplayground.Base.{ℕ, ◌+◌, ◌≡◌, refl, some, List, replicate, length}
use nfsplayground.Paths.{unlink, rename}
use nfsplayground.Generic.G001.{Random, path_of, original}
use nfsplayground.Generic.G001.Content.{verify_content, write_file, copy, copy_loop}
use nfsplayground.Generic.G001.Content.RoundTrip.{verify_content-write_file}
use nfsplayground.Generic.G001.Chain.{
  config, chain, copies, close_chains, close_chain, unlink_from, entry_at, count_link, source_link,
}
use nfsplayground.Examples.Toy.{toy, start}
use nfsplayground.Examples.Laws.{roomy, roomy-Reads, roomy-Writes}

abbrev pub counter : Random
counter = record {
  RndState = ℕ;
  prandom_seed_state = λ seed. seed;
  prandom_u32_state = λ n. (n, n + 7);
  full_name_hash = λ _. 5;
}

verify_content-write_file_example :
    let r = write_file counter roomy "sub/d" 8 start 0 in
    (r.0 ≡ some tt)
    × ((verify_content counter roomy "sub/d" (path_of roomy.decimal "sub/d" original) 8 r.1 r.2).2
        ≡ 0)
verify_content-write_file_example =
    verify_content-write_file counter roomy-Reads roomy-Writes "sub/d" 8 start 0 5 5 refl refl refl
      refl refl refl refl

abbrev no_links : List ℕ
no_links = replicate (length config) 0

-- Two hundred copies, and every chain closed.
chain_runs : (chain counter toy 1 1 no_links start 0).0 ≡ some no_links
unfolding chain copies copy copy_loop close_chains close_chain unlink_from entry_at count_link
    source_link path_of unlink rename
chain_runs = refl
