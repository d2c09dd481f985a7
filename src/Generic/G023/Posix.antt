-- ===== src/Generic/G023/Posix.antt =====
-- What generic/023 expects of rename, against the rules of rename(2).
use nfsplayground.Base.{
  ◌≡◌, ◌≢◌, refl, sym, subst, true, false, ◌↔◌, ◌==◌, ℤ, pos, e_noent, e_isdir, e_notdir,
  e_notempty,
}
use nfsplayground.Generic.G023.{
  FileType, none, regu, symb, dire, tree, is_dir, type_number, expected,
}

-- rename(2), of a source and a destination by their types.
pub data Rename : FileType → FileType → ℤ → Type 0 where
  -- the source does not exist
  missing : (d : FileType) → Rename none d e_noent
  -- a file takes the place of nothing or of a file
  file_moved :
      (s d : FileType) → s ≢ none → is_dir s ≡ false → is_dir d ≡ false → Rename s d (pos 0)
  file_onto_dir :
      (s d : FileType) → s ≢ none → is_dir s ≡ false → is_dir d ≡ true → Rename s d e_isdir
  -- a directory takes the place of nothing or of an empty directory
  dir_moved : (s : FileType) → is_dir s ≡ true → Rename s none (pos 0)
  dir_onto_empty : (s : FileType) → is_dir s ≡ true → Rename s dire (pos 0)
  dir_onto_full : (s : FileType) → is_dir s ≡ true → Rename s tree e_notempty
  dir_onto_file :
      (s d : FileType) → is_dir s ≡ true → d ≢ none → is_dir d ≡ false → Rename s d e_notdir

Rename-expected : (s d : FileType) → Rename s d (expected s d)
unfolding expected
Rename-expected none d = missing d
Rename-expected regu none = file_moved regu none (λ e. cc) refl refl
Rename-expected regu regu = file_moved regu regu (λ e. cc) refl refl
Rename-expected regu symb = file_moved regu symb (λ e. cc) refl refl
Rename-expected regu dire = file_onto_dir regu dire (λ e. cc) refl refl
Rename-expected regu tree = file_onto_dir regu tree (λ e. cc) refl refl
Rename-expected symb none = file_moved symb none (λ e. cc) refl refl
Rename-expected symb regu = file_moved symb regu (λ e. cc) refl refl
Rename-expected symb symb = file_moved symb symb (λ e. cc) refl refl
Rename-expected symb dire = file_onto_dir symb dire (λ e. cc) refl refl
Rename-expected symb tree = file_onto_dir symb tree (λ e. cc) refl refl
Rename-expected dire none = dir_moved dire refl
Rename-expected dire regu = dir_onto_file dire regu refl (λ e. cc) refl
Rename-expected dire symb = dir_onto_file dire symb refl (λ e. cc) refl
Rename-expected dire dire = dir_onto_empty dire refl
Rename-expected dire tree = dir_onto_full dire refl
Rename-expected tree none = dir_moved tree refl
Rename-expected tree regu = dir_onto_file tree regu refl (λ e. cc) refl
Rename-expected tree symb = dir_onto_file tree symb refl (λ e. cc) refl
Rename-expected tree dire = dir_onto_empty tree refl
Rename-expected tree tree = dir_onto_full tree refl

some_type : (t : FileType) → t ≢ none → (type_number t == 0) ≡ false
some_type none ne = absurd (ne refl)
some_type regu ne = refl
some_type symb ne = refl
some_type dire ne = refl
some_type tree ne = refl

dir_type : (t : FileType) → is_dir t ≡ true → (type_number t == 0) ≡ false
dir_type none d = cc
dir_type regu d = cc
dir_type symb d = cc
dir_type dire d = refl
dir_type tree d = refl

expected_unique : (s d : FileType) (e : ℤ) → Rename s d e → e ≡ expected s d
unfolding expected
expected_unique s d e (missing _) = refl
expected_unique s d e (file_moved _ _ ne fs fd) = rw (some_type s ne, fs, fd)
expected_unique s d e (file_onto_dir _ _ ne fs fd) = rw (some_type s ne, fs, fd)
expected_unique s d e (dir_moved _ ds) = rw (dir_type s ds, ds)
expected_unique s d e (dir_onto_empty _ ds) = rw (dir_type s ds, ds)
expected_unique s d e (dir_onto_full _ ds) = rw (dir_type s ds, ds)
expected_unique s d e (dir_onto_file _ _ ds ne fd) = rw (dir_type s ds, ds, some_type d ne, fd)

-- Of every two types of file, the matrix of generic/023 expects exactly the result that the rules of
-- rename(2) give.
expected-Rename : (s d : FileType) (e : ℤ) → (e ≡ expected s d) ↔ Rename s d e
expected-Rename s d e =
    (λ h. subst (Rename s d) (sym h) (Rename-expected s d), expected_unique s d e)
