-- ===== src/Generic/G130/Cases.antt =====
-- The cases of kunit/xfstests/generic/130.c.
use nfsplayground.Base.{
  ℕ, ◌+◌, ◌-◌, String, true, false, not, none, some, List, [], ◌∷◌, ◌++◌, pos, nonzero, ◌==◌, ◌==ℤ◌,
  length, same, codes, replicate,
}
use nfsplayground.Kernel.{Kernel, o_rdwr, o_wronly, o_creat, o_trunc, o_direct, o_append}
use nfsplayground.Paths.{truncate, ftruncate, kstat}
use nfsplayground.Files.{read_range, write_new_file}
use nfsplayground.Fixture.{Fixture}
use nfsplayground.Kunit.{Case, ◌>>=◌, ◌>>◌, run, step, assert, abort, expect, times}
use nfsplayground.Generic.G075.{byte_at}
use nfsplayground.Generic.G130.{
  most, path_of, Buffers, fill, expect_range, with_open, with_buffer, set_up,
}

module _ (K : Kernel) (B : Buffers K) (size_of : K.Kstat → ℕ) where
  open K use {Machine, Kstat, filp_close, kernel_write}

  -- xfs_write_new_file and the truncations, asserted to return 0
  unfoldable new_file : String → List ℕ → Case Machine (Unit {0})
  new_file path bytes = do
    err ← run (write_new_file K path bytes)
    elim err [ none ↦ abort | some e ↦ assert (not (nonzero e)) ]

  unfoldable pub cut_to : K.File → ℕ → Case Machine (Unit {0})
  cut_to f size = do err ← run (ftruncate K f (pos size)); assert (not (nonzero err))

  unfoldable pub zeroing_file : Case Machine (Unit {0})
  zeroing_file = with_buffer K B (λ buf. do
    let path = path_of "eof-zeroing_direct"
    with_open K B path (o_rdwr ∷ o_creat ∷ o_trunc ∷ o_direct ∷ []) 0o644 (λ f. do
      fill K B f true 0x63 0 65536 buf
      cut_to f 1
      fill K B f true 0x41 65536 65536 buf
      step (filp_close f)
      expect_range K B path 0 1 0x63
      expect_range K B path 1 65535 0
      expect_range K B path 65536 65536 0x41))

  unfoldable end_of_file_zeroing : Case (Fixture K) (Unit {0})
  end_of_file_zeroing = set_up K B zeroing_file

  unfoldable reading_a_hole : Case (Fixture K) (Unit {0})
  reading_a_hole = set_up K B (
      with_buffer K B (λ buf. do
        let path = path_of "blackhole"
        new_file path []
        err ← run (truncate K path (pos 8192))
        assert (not (nonzero err))
        expect_range K B path 5000 3000 0))

  unfoldable pub coherent_file : Case Machine (Unit {0})
  coherent_file = with_buffer K B (λ buf. do
    let path = path_of "buff_direct_coherency"
    with_open K B path (o_rdwr ∷ o_creat ∷ o_trunc ∷ []) 0o644 (λ f. do
      fill K B f false 0x41 8000 1000 buf
      fill K B f false 0x57 4000 1000 buf
      step (filp_close f)
      with_open K B path (o_rdwr ∷ o_direct ∷ []) 0 (λ f. do
        fill K B f true 0x78 20480 4096 buf
        fill K B f true 0x79 4096 4096 buf
        step (filp_close f)
        expect_range K B path 0 4000 0
        expect_range K B path 4000 96 0x57
        expect_range K B path 4096 4096 0x79
        expect_range K B path 8192 808 0x41
        expect_range K B path 20480 4096 0x78)))

  unfoldable buffered_and_direct : Case (Fixture K) (Unit {0})
  buffered_and_direct = set_up K B coherent_file

  unfoldable direct_over_a_larger_range : Case (Fixture K) (Unit {0})
  direct_over_a_larger_range = set_up K B (
      with_buffer K B (λ buf. do
        let path = path_of "direct_io"
        with_open K B path (o_rdwr ∷ o_creat ∷ o_trunc ∷ o_direct ∷ []) 0o644 (λ f. do
          fill K B f true 0x78 0 65536 buf
          fill K B f true 0x46 65536 most buf
          step (filp_close f)
          expect_range K B path 0 65536 0x78
          expect_range K B path 65536 most 0x46)))

  unfoldable block_edge : Case (Fixture K) (Unit {0})
  block_edge = set_up K B (
      with_buffer K B (λ buf. do
        let path = path_of "fsb_edge_test"
        with_open K B path (o_rdwr ∷ o_creat ∷ o_trunc ∷ []) 0o644 (λ f. do
          cut_to f 131072
          fill K B f false 0x5f 0 131072 buf
          cut_to f 0
          cut_to f 131072
          (n, at_pos) ← run (kernel_write f (0x61 ∷ 0x61 ∷ []) 65535)
          assert (n ==ℤ pos 2)
          step (filp_close f)
          expect_range K B path 0 65535 0
          expect_range K B path 65535 2 0x61
          expect_range K B path 65537 (131072 - 65537) 0)))

  -- The texts, without their terminators.
  abbrev pub test_msg : List ℕ
  test_msg = codes "Test" ++ 10 ∷ []

  abbrev pub append_msg : List ℕ
  append_msg = codes "append to me" ++ 10 ∷ []

  abbrev pub letters_msg : List ℕ
  letters_msg = codes "abcdefghijklmnopqrstuvwxyz" ++ 10 ∷ []

  unfoldable trunc_round : Kstat → String → Case Machine (Unit {0})
  trunc_round st path = with_open K B path (o_rdwr ∷ o_creat ∷ o_trunc ∷ []) 0o644 (λ f. do
    (err, st') ← run (kstat K st path)
    assert (not (nonzero err))
    expect (size_of st' == 0)
    (n, at_pos) ← run (kernel_write f test_msg 0)
    assert (n ==ℤ pos (length test_msg))
    step (filp_close f)
    (n, got) ← run (read_range K path (length test_msg) 0)
    assert (n ==ℤ pos (length test_msg))
    expect (same test_msg got))

  unfoldable trunc_empties : Kstat → Case (Fixture K) (Unit {0})
  trunc_empties st = set_up K B (times 5 0 (λ n. trunc_round st (path_of "trunc0")))

  unfoldable append_ignores_offset : Case (Fixture K) (Unit {0})
  append_ignores_offset = set_up K B (
      with_buffer K B (λ buf. do
        let path = path_of "append"
        new_file path append_msg
        with_open K B path (o_wronly ∷ o_append ∷ []) 0 (λ f. do
          (n, at_pos) ← run (kernel_write f (replicate 10 0x61) 0)
          assert (n ==ℤ pos 10)
          step (filp_close f)
          expect_range K B path 0 1 (byte_at append_msg 0)
          expect_range K B path (length append_msg) 10 0x61)))

  unfoldable read_one : String → ℕ → ℕ → Case Machine (Unit {0})
  read_one path off want = do
    (n, got) ← run (read_range K path 1 off)
    assert (n ==ℤ pos 1)
    expect (byte_at got 0 == want)

  unfoldable write_one : K.File → ℕ → Case Machine (Unit {0})
  write_one f i = do
    (n, at_pos) ← run (kernel_write f ((0x61 + i) ∷ []) (4090 + i))
    assert (n ==ℤ pos 1)

  unfoldable single_bytes : Case (Fixture K) (Unit {0})
  single_bytes = set_up K B (
      with_buffer K B (λ buf. do
        let path = path_of "small_vector"
        new_file path letters_msg
        times 13 0 (λ i. read_one path i (byte_at letters_msg i))
        with_open K B path (o_rdwr ∷ []) 0 (λ f. do
          times 12 0 (write_one f)
          step (filp_close f)
          times 12 0 (λ i. read_one path (4090 + i) (0x61 + i))
          expect_range K B path (length letters_msg) (4090 - length letters_msg) 0)))
