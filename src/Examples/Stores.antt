-- ===== src/Examples/Stores.antt =====
-- Two small kernels: one with a directory of names, one with a file that is written at any position.
use Prim.Native.String.{◌++◌ as ◌<>◌, count}
use text.Mathlib.Text.{◌==◌ as ◌==s◌}
use text.Mathlib.TextEquality.{eq_iff}
use text.Mathlib.TextLemmas.{append_cancel_left, length-append}
use nfsplayground.Base.{
  ℕ, zero, suc, ◌+◌, ◌-◌, ◌≡◌, ◌≢◌, refl, ap, ◌∙◌, arith, String, List, [], ◌∷◌, length, Option,
  some, none, ℤ, pos, State, e_noent, e_exist, e_inval, negsuc, ◌<◌, if◌then◌else◌, ltb, Bool-cases,
  inl, inr,
}
use nfsplayground.Kernel.{Kernel, ptr, err_ptr, Pointer}
use nfsplayground.Paths.{truncate, kstat}
use nfsplayground.Generic.G007.Table.{Names}
use nfsplayground.Generic.G075.{within, byte_at}
use nfsplayground.Generic.G075.Sync.{KeepsData}
use nfsplayground.Examples.Toy.{Toy, toy}

abbrev set_name : String → Option ℕ → Toy → Toy
set_name path o s = record s { names = λ q. if q ==s path then o else s.names q }

abbrev unary : ℕ → String
unary zero = ""
unary (suc n) = "1" <> unary n

abbrev open_name : String → State Toy (Pointer ℕ)
open_name path s = elim (s.names path) [
  | none ↦ (ptr 5, set_name path (some 7) s)
  | some i ↦ (err_ptr e_exist, s)
]

abbrev unlink_name : String → State Toy ℤ
unlink_name path s = elim (s.names path) [
  | none ↦ (e_noent, s)
  | some i ↦ (pos 0, set_name path none s)
]

abbrev find_name : String → State Toy (ℤ × String)
find_name path s = elim (s.names path) [ none ↦ ((e_noent, path), s) | some i ↦ ((pos 0, path), s) ]

abbrev stat_name : String → State Toy (ℤ × ℕ)
stat_name path s = elim (s.names path) [ none ↦ ((e_noent, 0), s) | some i ↦ ((pos 0, i), s) ]

-- Every file that is created has the inode number 7.
abbrev pub directory : Kernel
directory = record toy {
  filp_open = λ path _ _. open_name path;
  do_unlinkat = unlink_name;
  kern_path = λ path _. find_name path;
  path_put = λ _ s. s;
  vfs_getattr = stat_name;
  decimal = unary;
}

abbrev pub ino_of : ℕ → ℕ
ino_of st = st

abbrev pub entry : Toy → String → Option ℕ
entry s path = s.names path

unary-injective : (i j : ℕ) → unary i ≡ unary j → i ≡ j
unary-injective zero zero e = refl
unary-injective zero (suc j) e = omega (arith, ap count e, length-append "1" (unary j))
unary-injective (suc i) zero e = omega (arith, ap count e, length-append "1" (unary i))
unary-injective (suc i) (suc j) e = ap suc (unary-injective i j (append_cancel_left "1" _ _ e))

set_name-here : (path : String) (o : Option ℕ) (s : Toy) → (set_name path o s).names path ≡ o
set_name-here path o s = rw ((eq_iff path path).1 refl) refl

set_name-other :
    (path : String) (o : Option ℕ) (s : Toy) (q : String)
    → q ≢ path
    → (set_name path o s).names q ≡ s.names q
set_name-other path o s q ne = elim (Bool-cases (q ==s path)) [
  | inl e ↦ absurd (ne ((eq_iff q path).0 e))
  | inr e ↦ rw e refl
]

pub directory-Names : Names directory ino_of entry
unfolding kstat
directory-Names = record {
  open_new = λ path s e.
      rw (open_name, e) (5, 7, refl, set_name-here path (some 7) s, set_name-other path (some 7) s);
  open_there = λ path s i e. rw (open_name, e) (refl, λ q. refl);
  entry-filp_close = λ f s q. refl;
  unlink_there = λ path s i e.
      rw (unlink_name, e) (refl, set_name-here path none s, set_name-other path none s);
  unlink_missing = λ path s e. rw (unlink_name, e) (refl, λ q. refl);
  path_missing = λ path s e. rw (find_name, e) (refl, λ q. refl);
  path_there =
      λ path s i e. rw (find_name, stat_name, e, e) (refl, refl, refl, λ q. rw (find_name, e) refl);
  entry-path_put = λ p s q. refl;
  decimal-injective = unary-injective;
}

abbrev pub read_from : (ℕ → ℕ) → ℕ → ℕ → List ℕ
read_from bytes off zero = []
read_from bytes off (suc len) = bytes off ∷ read_from bytes (suc off) len

abbrev store_bytes : List ℕ → ℕ → State Toy (ℤ × ℕ)
store_bytes bytes off s = (
  (pos (length bytes), off + length bytes),
  record s {
    size = if ltb s.size (off + length bytes) then off + length bytes else s.size;
    bytes = λ i.
        if within off (length bytes) i
        then byte_at bytes (i - off)
        else if ltb i s.size
        then s.bytes i
        else 0;
  },
)

abbrev resize : ℤ → State Toy ℤ
resize (pos n) s =
    (pos 0, record s { size = n; bytes = λ i. if ltb i s.size then s.bytes i else 0 })
resize (negsuc n) s = (e_inval, s)

abbrev pub store : Kernel
store = record toy {
  kernel_write = λ _. store_bytes;
  kernel_read = λ _ len off s. ((pos len, read_from s.bytes off len, off + len), s);
  vfs_truncate = λ _. resize;
  vfs_getattr = λ _ s. ((pos 0, s.size), s);
}

abbrev pub punch_hole : ℕ → ℕ → ℕ → ℕ → State Toy ℤ
punch_hole f mode off len s =
    (pos 0, record s { bytes = λ i. if within off len i then 0 else s.bytes i })

pub length-read_from : (bytes : ℕ → ℕ) (off len : ℕ) → length (read_from bytes off len) ≡ len
length-read_from bytes off zero = refl
length-read_from bytes off (suc len) = omega (arith, length-read_from bytes (suc off) len)

pub byte_at-read_from :
    (bytes : ℕ → ℕ) (off len i : ℕ)
    → i < len
    → byte_at (read_from bytes off len) i ≡ bytes (off + i)
byte_at-read_from bytes off zero i below = absurd (omega (arith, below))
byte_at-read_from bytes off (suc len) zero below = ap bytes (omega arith)
byte_at-read_from bytes off (suc len) (suc i) below =
    byte_at-read_from bytes (suc off) len i (omega (arith, below)) ∙ ap bytes (omega arith)

pub store-KeepsData : KeepsData store punch_hole ino_of 5 (λ s. s.size) (λ s. s.bytes)
unfolding kstat truncate
store-KeepsData = record {
  kernel_write_all = λ bytes off s some_bytes inside. (refl, refl, λ i below. refl);
  truncate_to = λ off s inside. (refl, refl, λ i below. refl);
  size-fallocate = λ off len s. refl;
  byte-fallocate = λ off len i s. refl;
  kernel_read_inside = λ len off s inside.
      (refl, length-read_from s.bytes off len, byte_at-read_from s.bytes off len, refl, λ i. refl);
  kstat_size = λ st s. (refl, refl, refl, λ i. refl);
}
