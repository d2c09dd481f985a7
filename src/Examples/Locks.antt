-- ===== src/Examples/Locks.antt =====
-- A small kernel that keeps locks by the rules, and generic/478 on it.
use nfsplayground.Base.{
  ℕ, zero, suc, ◌≡◌, ◌≢◌, refl, ap, ◌∙◌, inl, inr, arith, Bool, true, false, List, [], ◌∷◌, ◌++◌,
  length, some, pos, ◌==◌, ==_iff, if◌then◌else◌, Bool-cases,
}
use nfsplayground.Kernel.{Kernel, ptr}
use nfsplayground.Generic.G075.{byte_at}
use nfsplayground.Generic.G478.{
  LockType, unlck, Owner, Files, setter_files, child_files, getter_files, of_files, of_file,
  Request, LockCalls,
}
use nfsplayground.Generic.G478.One.{every_line}
use nfsplayground.Generic.G478.Rules.{KeepsLocks, Found, clash, same_files, drop_files, drop_closed}
use nfsplayground.Generic.G478.Lines.{every_line-Fine}
use nfsplayground.Examples.Toy.{Toy, toy, start}

abbrev same_owner : Owner ℕ → Owner ℕ → Bool
same_owner (of_files a) (of_files b) = same_files a b
same_owner (of_file f) (of_file g) = f == g
same_owner _ _ = false

abbrev test_lock : Request ℕ → List (Request ℕ) → LockType
test_lock r [] = unlck
test_lock r (h ∷ hs) =
    let later = test_lock r hs in
    if same_owner h.flc_owner r.flc_owner then later else if clash h r then h.flc_type else later

abbrev set_count : List ℕ → ℕ → ℕ → List ℕ
set_count [] f n = []
set_count (x ∷ xs) zero n = n ∷ xs
set_count (x ∷ xs) (suc f) n = x ∷ set_count xs f n

abbrev locking : Kernel
locking = record toy {
  filp_open =
      λ path flags mode s. (ptr (length s.contents), record s { contents = s.contents ++ 1 ∷ [] });
  flush_delayed_fput = λ s. record s { locks = drop_closed (byte_at s.contents) s.locks };
}

abbrev count_by : (ℕ → ℕ) → ℕ → Toy → Toy
count_by step f s = record s { contents = set_count s.contents f (step (byte_at s.contents f)) }

abbrev one_less : ℕ → ℕ
one_less zero = zero
one_less (suc n) = n

abbrev lock_calls : LockCalls locking
lock_calls = record {
  vfs_set_lock = λ f r s. (pos 0, record s { locks = r ∷ s.locks });
  vfs_test_lock = λ f r s. ((pos 0, test_lock r s.locks), s);
  get_file = count_by suc;
  close_as = λ f files s. count_by one_less f (record s { locks = drop_files files s.locks });
  tgid = 100;
}

same_owner_refl : (a : Owner ℕ) → same_owner a a ≡ true
same_owner_refl (of_files setter_files) = refl
same_owner_refl (of_files child_files) = refl
same_owner_refl (of_files getter_files) = refl
same_owner_refl (of_file f) = (==_iff f f).1 refl

same_files-eq : (a b : Files) → same_files a b ≡ true → a ≡ b
same_files-eq setter_files setter_files h = refl
same_files-eq setter_files child_files h = cc
same_files-eq setter_files getter_files h = cc
same_files-eq child_files setter_files h = cc
same_files-eq child_files child_files h = refl
same_files-eq child_files getter_files h = cc
same_files-eq getter_files setter_files h = cc
same_files-eq getter_files child_files h = cc
same_files-eq getter_files getter_files h = refl

same_owner-eq : (a b : Owner ℕ) → same_owner a b ≡ true → a ≡ b
same_owner-eq (of_files a) (of_files b) h = ap of_files (same_files-eq a b h)
same_owner-eq (of_file f) (of_file g) h = ap of_file ((==_iff f g).0 h)
same_owner-eq (of_files a) (of_file g) h = cc
same_owner-eq (of_file f) (of_files b) h = cc

other_owner :
    (h r : Request ℕ) → h.flc_owner ≡ r.flc_owner → same_owner h.flc_owner r.flc_owner ≢ false
other_owner h r e differ =
    cc (differ, same_owner_refl r.flc_owner, ap (λ o. same_owner o r.flc_owner) e)

test_lock-Found : (r : Request ℕ) (hs : List (Request ℕ)) → Found r hs (test_lock r hs)
test_lock-Found r [] = refl
test_lock-Found r (h ∷ hs) = elim (Bool-cases (same_owner h.flc_owner r.flc_owner)) [
  | inl own ↦
      rw own (inr (λ b. b.0 (same_owner-eq h.flc_owner r.flc_owner own), test_lock-Found r hs))
  | inr others ↦ elim (Bool-cases (clash h r)) [
    | inl meet ↦ rw (others, meet) (inl ((λ e. other_owner h r e others, refl), refl))
    | inr apart ↦ rw (others, apart) (inr ((λ b. cc), test_lock-Found r hs))
  ]
]

byte_at-new : (xs : List ℕ) → byte_at xs (length xs) ≡ 0
byte_at-new [] = refl
byte_at-new (x ∷ xs) = byte_at-new xs

byte_at-added : (xs : List ℕ) → byte_at (xs ++ 1 ∷ []) (length xs) ≡ 1
byte_at-added [] = refl
byte_at-added (x ∷ xs) = byte_at-added xs

byte_at-before : (xs : List ℕ) (g : ℕ) → g ≢ length xs → byte_at (xs ++ 1 ∷ []) g ≡ byte_at xs g
byte_at-before [] zero ne = absurd (ne refl)
byte_at-before [] (suc g) ne = refl
byte_at-before (x ∷ xs) zero ne = refl
byte_at-before (x ∷ xs) (suc g) ne = byte_at-before xs g (λ e. ne (ap suc e))

byte_at-set : (xs : List ℕ) (f n m : ℕ) → byte_at xs f ≡ suc m → byte_at (set_count xs f n) f ≡ n
byte_at-set [] f n m h = absurd (omega (arith, h))
byte_at-set (x ∷ xs) zero n m h = refl
byte_at-set (x ∷ xs) (suc f) n m h = byte_at-set xs f n m h

byte_at-others : (xs : List ℕ) (f n g : ℕ) → g ≢ f → byte_at (set_count xs f n) g ≡ byte_at xs g
byte_at-others [] f n g ne = refl
byte_at-others (x ∷ xs) zero n zero ne = absurd (ne refl)
byte_at-others (x ∷ xs) zero n (suc g) ne = refl
byte_at-others (x ∷ xs) (suc f) n zero ne = refl
byte_at-others (x ∷ xs) (suc f) n (suc g) ne = byte_at-others xs f n g (λ e. ne (ap suc e))

locking-KeepsLocks :
    KeepsLocks locking lock_calls (λ s. s.locks) (λ s. byte_at s.contents) (λ s. true)
locking-KeepsLocks = record {
  alloc_lock = λ s h. (refl, refl, refl, refl);
  free_lock = λ s h. (refl, refl, refl);
  open_file = λ rdonly s h. (
    length s.contents,
    refl,
    byte_at-new s.contents,
    byte_at-added s.contents,
    byte_at-before s.contents,
    refl,
    refl,
  );
  set_first = λ f r s h e. (refl, ap (λ hs. r ∷ hs) e, refl, refl);
  test_finds = λ f r s h. (refl, test_lock-Found r s.locks, refl, refl, refl);
  get_counts = λ f s n h e. (
    refl,
    byte_at-set s.contents f (suc (byte_at s.contents f)) n e ∙ ap suc e,
    byte_at-others s.contents f (suc (byte_at s.contents f)),
    refl,
  );
  close_shared = λ f files s n h e. (
    refl,
    byte_at-set s.contents f (one_less (byte_at s.contents f)) (suc n) e ∙ ap one_less e,
    byte_at-others s.contents f (one_less (byte_at s.contents f)),
    refl,
  );
  close_last = λ f files s h e. (
    inl refl,
    byte_at-set s.contents f (one_less (byte_at s.contents f)) 0 e ∙ ap one_less e,
    byte_at-others s.contents f (one_less (byte_at s.contents f)),
    refl,
  );
  flush_ends = λ s h. (refl, refl, refl);
}

every_line-Fine_example :
    let r = every_line locking lock_calls start 0 in (r.0 ≡ some tt) × (r.2 ≡ 0) × (r.1.locks ≡ [])
every_line-Fine_example = every_line-Fine locking-KeepsLocks start 0 refl refl
