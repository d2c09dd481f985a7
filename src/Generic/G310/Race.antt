-- ===== src/Generic/G310/Race.antt =====
-- Whatever the reader of generic/310 does between the calls of the case, the case passes.
use mathlib.Core.List.{Permᴰ}
use nfsplayground.Base.{
  codes, ◌≢◌, ℕ, zero, suc, ◌+◌, ◌<◌, ◌≡◌, refl, sym, ap, ◌∙◌, arith, List, [], ◌∷◌, ◌++◌, length,
  some, pos, negsuc, nonzero, not, ◌==◌, ==_iff, ◌==ℤ◌, ==ℤ_iff, ltb, true, false, Bool, Bool-cases,
  inl, inr, ◌⊎◌, State, Option, ℤ, if◌then◌else◌,
}
use nfsplayground.Kernel.{Kernel}
use nfsplayground.Kunit.{
  Case, pass, ◌>>=◌, ◌>>◌, run, expect, Fine, Fine-then, went_with, went_fine, expect-Fine,
  run-assert, Fine-run,
}
use nfsplayground.Generic.G339.{is_dots}
use nfsplayground.Generic.G310.{
  entries, rounds, Reader, new_reader, count_read, Walk, new_walk, is_entry, actor, act_all,
  DirectoryCalls, Racing, read_loop, reader_runs, racing, wait_reader, walk_dir, one_round,
  all_rounds, race,
}
use nfsplayground.Generic.G310.Listed.{names, listing-counted}

-- What the kernel documents of its calls on an open directory that has the names `all`: `left` are
-- those that are not listed yet.
pub record ListsAll (K : Kernel) (D : DirectoryCalls K) (all : List (List ℕ))
    (left : K.Machine → List (List ℕ)) : Type 0 where
  pub vfs_read_fails :
      (d : K.File) (buf len : ℕ) (s : K.Machine)
      → let r = D.vfs_read d buf len s in (r.0 ≡ negsuc 20) × (left r.1 ≡ left s)
  pub seek_start_rewinds :
      (d : K.File) (s : K.Machine) → let r = D.seek_start d s in (r.0 ≡ pos 0) × (left r.1 ≡ all)
  pub iterate_dir_takes :
      (d : K.File) (s : K.Machine)
      → let r = D.iterate_dir d s in
        (r.0.0 ≡ pos 0) × (left s ≡ r.0.1 ++ left r.1) × (r.0.1 ≡ [] → left s ≡ [])

act_all-append : (a b : List (List ℕ)) (w : Walk) → act_all (a ++ b) w ≡ act_all b (act_all a w)
unfolding act_all
act_all-append [] b w = refl
act_all-append (name ∷ a) b w = act_all-append a b (actor name w)

total-actor : (name : List ℕ) (w : Walk) → (actor name w).total ≡ w.total + 1
unfolding actor
total-actor name w = elim (Bool-cases (is_dots name)) [
  | inl e ↦ rw e refl
  | inr e ↦ elim (Bool-cases (is_entry name)) [
    | inl e' ↦ rw e (rw e' refl)
    | inr e' ↦ rw e (rw e' refl)
  ]
]

total-act_all :
    (names : List (List ℕ)) (w : Walk) → (act_all names w).total ≡ w.total + length names
unfolding act_all
total-act_all [] w = omega arith
total-act_all (name ∷ names) w =
    omega (arith, total-act_all names (actor name w), total-actor name w)

length-append : (a b : List (List ℕ)) → length (a ++ b) ≡ length a + length b
length-append [] b = omega arith
length-append (x ∷ a) b = omega (arith, length-append a b)

empty_lem : (a : List (List ℕ)) → length a ≡ 0 → a ≡ []
empty_lem [] e = refl
empty_lem (x ∷ a) e = absurd (omega (arith, e))

List-cases : (xs : List ℕ) → (xs ≡ []) ⊎ ((x : ℕ) × (rest : List ℕ) × (xs ≡ x ∷ rest))
List-cases [] = inl refl
List-cases (x ∷ rest) = inr (x, rest, refl)

-- No read went well, and none failed with another errno.
abbrev pub Clean : Reader → Type 0
Clean r = (r.wrong ≡ 0) × (r.err ≡ pos 0)

count_read-Clean : (n : ℤ) (r : Reader) → n ≡ negsuc 20 → Clean r → Clean (count_read n r)
unfolding count_read
count_read-Clean n r e c = rw e c

module _ {K : Kernel} {D : DirectoryCalls K} {all : List (List ℕ)}
    {left : K.Machine → List (List ℕ)} (L : ListsAll K D all left) (d : K.File) (buf : ℕ) where
  abbrev Left : List (List ℕ) → Racing K → Type 0
  Left names s = (left s.machine ≡ names) × Clean s.reader

  read_loop-Left :
      (times : ℕ) (s : K.Machine) (r : Reader)
      → Clean r
      → let x = read_loop K D times d buf s r in (left x.0 ≡ left s) × Clean x.1
  unfolding read_loop
  read_loop-Left zero s r c = (refl, c)
  read_loop-Left (suc times) s r c =
      let v = L.vfs_read_fails d buf 100 s in
      let n = D.vfs_read d buf 100 s in
      let rest = read_loop-Left times n.1 (count_read n.0 r) (count_read-Clean n.0 r v.0 c) in
      (rest.0 ∙ v.1, rest.1)

  -- The reads between two calls change nothing that is listed.
  reader_runs-Left :
      (s : Racing K) (names : List (List ℕ)) → Left names s → Left names (reader_runs K D d buf s)
  unfolding reader_runs
  reader_runs-Left s names h = elim (List-cases s.pauses) [
    | inl e ↦ rw (reader_runs, e) h
    | inr (times, later, e) ↦
        let x = read_loop-Left times s.machine s.reader h.1 in rw (reader_runs, e) (x.0 ∙ h.0, x.1)
  ]

  wait_reader-round :
      (times : ℕ) (s : Racing K) (n : ℕ)
      → let s' = reader_runs K D d buf s in
        s.reader.reads == 0 ≡ true
        → wait_reader K D (suc times) d buf s n
          ≡ wait_reader K D times d buf (record s' { machine = K.msleep 10 s'.machine }) n
  unfolding wait_reader
  wait_reader-round times s n e = rw (wait_reader, ◌>>=◌, ◌>>◌, run, e) refl

  wait_reader-end :
      (times : ℕ) (s : Racing K) (n : ℕ)
      → s.reader.reads == 0 ≡ false
      → wait_reader K D (suc times) d buf s n ≡ (some tt, s, n)
  unfolding wait_reader
  wait_reader-end times s n e = rw (wait_reader, ◌>>=◌, ◌>>◌, run, e) refl

  wait_reader-Fine :
      (times : ℕ) (s : Racing K) (n : ℕ)
      → Clean s.reader
      → Fine (λ s'. Clean s'.reader) n (wait_reader K D times d buf s n)
  unfolding wait_reader
  wait_reader-Fine zero s n c = (refl, refl, c)
  wait_reader-Fine (suc times) s n c = elim (Bool-cases (s.reader.reads == 0)) [
    | inl e ↦
        let s' = reader_runs K D d buf s in
        let h = reader_runs-Left s (left s.machine) (refl, c) in
        rw (wait_reader-round times s n e)
          (wait_reader-Fine times (record s' { machine = K.msleep 10 s'.machine }) n h.1)
    | inr e ↦ rw (wait_reader-end times s n e) (refl, refl, c)
  ]

  abbrev walk_on : ℕ → Walk → Bool → Case (Racing K) Walk
  walk_on fuel w' more = elim more [ true ↦ walk_dir K D fuel d buf w' | false ↦ pass w' ]

  -- A call of the case, after some reads, as a step of both threads.
  abbrev raced : {A : Type 0} → State K.Machine A → State (Racing K) A
  raced m s =
      let s' = reader_runs K D d buf s in
      ((m s'.machine).0, record s' { machine = (m s'.machine).1 })

  walk_dir-run :
      (fuel : ℕ) (w : Walk) (s : Racing K) (n : ℕ)
      → let s1 = reader_runs K D d buf s in
        let r = D.iterate_dir d s1.machine in
        let w' = act_all r.0.1 w in
        r.0.0 ≡ pos 0
        → walk_dir K D (suc fuel) d buf w s n
          ≡ walk_on fuel w' (ltb w.total w'.total) (record s1 { machine = r.1 }) n
  unfolding walk_dir
  walk_dir-run fuel w s n e =
      run-assert (raced (D.iterate_dir d)) (λ x. not (nonzero x.0))
        (λ x. walk_on fuel (act_all x.1 w) (ltb w.total (act_all x.1 w).total)) s n
        (ap (λ z. not (nonzero z)) e)

  -- A listing ends, with all the names that were left.
  walk_dir-all :
      (fuel : ℕ) (w : Walk) (names : List (List ℕ)) (s : Racing K) (n : ℕ)
      → length names < fuel
      → Left names s
      → let r = walk_dir K D fuel d buf w s n in
        (r.0 ≡ some (act_all names w)) × (r.2 ≡ n) × Clean r.1.reader
  walk_dir-all zero w names s n enough h = absurd (omega (arith, enough))
  walk_dir-all (suc fuel) w names s n enough h =
      let s1 = reader_runs K D d buf s in
      let h1 = reader_runs-Left s names h in
      let i = L.iterate_dir_takes d s1.machine in
      let batch = (D.iterate_dir d s1.machine).0.1 in
      let s2 : Racing K = record s1 { machine = (D.iterate_dir d s1.machine).1 } in
      let rest = left s2.machine in
      let parts : names ≡ batch ++ rest = sym h1.0 ∙ i.1 in
      let t = total-act_all batch w in
      let sum = ap length parts ∙ length-append batch rest in
      elim (Bool-cases (ltb w.total (act_all batch w).total)) [
        | inl more ↦
            let some_names : 0 < length batch = ground (arith, more, t) in
            let next =
              walk_dir-all fuel (act_all batch w) rest s2 n (omega (arith, enough, sum, some_names))
                (refl, h1.1) in
            rw (walk_dir-run fuel w s n i.0 ∙ ap (λ b. walk_on fuel (act_all batch w) b s2 n) more)
              (
                next.0 ∙ ap some (sym (ap (λ l. act_all l w) parts ∙ act_all-append batch rest w)),
                next.1,
                next.2,
              )
        | inr done ↦
            let no_names : batch ≡ [] = empty_lem batch (ground (arith, done, t)) in
            let none_left : names ≡ [] = sym h1.0 ∙ i.2 no_names in
            rw (walk_dir-run fuel w s n i.0 ∙ ap (λ b. walk_on fuel (act_all batch w) b s2 n) done)
              (ap some (ap (λ l. act_all l w) (no_names ∙ sym none_left)), refl, h1.1)
      ]

  -- A round, whatever the reader does between its calls.
  module _ (found : (act_all all new_walk).entries_seen ≡ entries)
      (known : (act_all all new_walk).alien ≡ 0) where
    one_round-Fine :
        (fuel : ℕ) (s : Racing K) (n : ℕ)
        → length all < fuel
        → Clean s.reader
        → Fine (λ s'. Clean s'.reader) n (one_round K D fuel d buf s n)
    unfolding one_round
    one_round-Fine fuel s n enough c =
        let I : Racing K → Type 0 = λ s'. Clean s'.reader in
        let s1 = reader_runs K D d buf s in
        let h1 = reader_runs-Left s (left s.machine) (refl, c) in
        let r = L.seek_start_rewinds d s1.machine in
        let s2 : Racing K = record s1 { machine = (D.seek_start d s1.machine).1 } in
        let w = walk_dir-all fuel new_walk all s2 n enough (r.1, h1.1) in
        let m = walk_dir K D fuel d buf new_walk in
        let s3 = (m s2 n).1 in
        let judge : Walk → Case (Racing K) (Unit {0}) =
          λ x. expect (x.entries_seen == entries) >> expect (x.alien == 0) in
        let all_there : (act_all all new_walk).entries_seen == entries ≡ true =
          (==_iff _ _).1 found in
        let none_other : (act_all all new_walk).alien == 0 ≡ true = (==_iff _ _).1 known in
        Fine-run I (raced (D.seek_start d)) (λ z. z ==ℤ pos 0) (λ z. m >>= judge) s n
          ((==ℤ_iff _ (pos 0)).1 r.0)
          (rw (went_with m judge s2 n (act_all all new_walk) w.0 w.1) (
            Fine-then I I (expect ((act_all all new_walk).entries_seen == entries))
              (expect ((act_all all new_walk).alien == 0)) s3 n (expect-Fine I _ s3 n all_there w.2)
              (λ s' h'. expect-Fine I _ s' n none_other h')))

    all_rounds-Fine :
        (times fuel : ℕ) (s : Racing K) (n : ℕ)
        → length all < fuel
        → Clean s.reader
        → Fine (λ s'. Clean s'.reader) n (all_rounds K D times fuel d buf s n)
    unfolding all_rounds
    all_rounds-Fine zero fuel s n enough c = (refl, refl, c)
    all_rounds-Fine (suc times) fuel s n enough c =
        let I : Racing K → Type 0 = λ s'. Clean s'.reader in
        Fine-then I I (one_round K D fuel d buf) (all_rounds K D times fuel d buf) s n
          (one_round-Fine fuel s n enough c) (λ s' c'. all_rounds-Fine times fuel s' n enough c')

    -- What is expected of the reader in the end.
    abbrev judge_reader : Reader → Case (Racing K) (Unit {0})
    judge_reader r = expect (ltb 0 r.reads) >> (expect (r.wrong == 0) >> expect (r.err ==ℤ pos 0))

    abbrev Passed : ℕ → Option (Unit {0}) × Racing K × ℕ → Type 0
    Passed n r =
        (r.0 ≡ some tt) × (r.2 ≡ (if ltb 0 r.1.reader.reads then n else suc n)) × Clean r.1.reader

    judge_reader-Passed :
        (s : Racing K) (n : ℕ) → Clean s.reader → Passed n (judge_reader s.reader s n)
    judge_reader-Passed s n c = elim (Bool-cases (ltb 0 s.reader.reads)) [
      | inl e ↦ rw (e, c.0, c.1) (rw e (refl, refl, (refl, refl)))
      | inr e ↦ rw (e, c.0, c.1) (rw e (refl, refl, (refl, refl)))
    ]

    -- The race, once a listing of all the names counts what it should.
    race-counted :
        (fuel : ℕ) (pauses : List ℕ) (s : K.Machine) (n : ℕ)
        → length all < fuel
        → let r =
            race K D fuel d buf (record { machine = s; reader = new_reader; pauses = pauses }) n in
          (r.0 ≡ some tt)
          × (r.2 ≡ (if ltb 0 r.1.reader.reads then n else suc n))
          × (r.1.reader.wrong ≡ 0)
          × (r.1.reader.err ≡ pos 0)
    unfolding race
    race-counted fuel pauses s n enough =
        let s0 : Racing K = record { machine = s; reader = new_reader; pauses = pauses } in
        let I : Racing K → Type 0 = λ s'. Clean s'.reader in
        let close : Case (Racing K) (Unit {0}) = racing K D d buf (λ s. (tt, K.filp_close d s)) in
        let judge : Case (Racing K) (Unit {0}) = λ s n. judge_reader s.reader s n in
        let waited = wait_reader-Fine 100 s0 n (refl, refl) in
        let m1 = wait_reader K D 100 d buf in
        let m2 = all_rounds K D rounds fuel d buf in
        let s1 = (m1 s0 n).1 in
        let listed = all_rounds-Fine rounds fuel s1 n enough waited.2 in
        let s2 = (m2 s1 n).1 in
        let h3 = reader_runs-Left s2 (left s2.machine) (refl, listed.2) in
        let s3 = (close s2 n).1 in
        let p = judge_reader-Passed s3 n h3.1 in
        rw
          (
            went_fine m1 (m2 >> (close >> judge)) s0 n waited.0 waited.1,
            went_fine m2 (close >> judge) s1 n listed.0 listed.1,
          )
          (p.0, p.1, p.2.0, p.2.1)

  -- However the reads of the reader fall between the calls of the case, on a kernel that fails every
  -- read of a directory with EISDIR, and that lists the directory's names, in any order and in batches
  -- that end with an empty one, where these names are `.`, `..` and the 32 that the case creates, an
  -- `e` and a number that is printed with a digit at least, the race of generic/310 goes through, with
  -- fuel for more calls than there are names: the 40 listings count no failure, the reader has seen no
  -- read succeed or fail otherwise, and no failure is counted unless it never ran, which counts one.
  pub race-Passed :
      (fuel : ℕ) (pauses : List ℕ) (s : K.Machine) (n : ℕ)
      → ((i : ℕ) → codes (K.decimal i) ≢ [])
      → Permᴰ all (names K)
      → length all < fuel
      → let r =
          race K D fuel d buf (record { machine = s; reader = new_reader; pauses = pauses }) n in
        (r.0 ≡ some tt)
        × (r.2 ≡ (if ltb 0 r.1.reader.reads then n else suc n))
        × (r.1.reader.wrong ≡ 0)
        × (r.1.reader.err ≡ pos 0)
  race-Passed fuel pauses s n digits order enough =
      let c = listing-counted K digits order in race-counted c.0 c.1 fuel pauses s n enough
