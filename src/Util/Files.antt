-- ===== src/Util/Files.antt =====
-- src/util/util.go, `StringToNewFile`: writing a new file. The file system is the argument `Disk`, a
-- state with what `os.Create`, `File.Write` and reading a whole file do to it.
use burnell.Prelude.{◌≡◌, refl, inl, inr, List, [], ◌++◌, Option, none, some, if◌then◌else◌, arith}
use burnell.Text.{Text, ◌==◌}
use burnell.Text.Laws.{eq_refl}
use burnell.Assoc.{lookup, insert, lookup-insert}
use burnell.Result.{Result, ok, err, panic, Result-cases}

pub record Disk (S : Type 0) : Type 0 where
  pub create : Text → S → Result S
  pub write : Text → Text → S → Result S
  pub read : S → Text → Option Text

-- A file that is created is empty, what is written stands behind what was there, and no other file
-- changes.
pub record Writes {S : Type 0} (disk : Disk S) : Type 0 where
  pub read-create :
      (name other : Text) (s s' : S)
      → disk.create name s ≡ ok s'
      → disk.read s' other ≡ (if name == other then some [] else disk.read s other)
  pub read-write :
      (name other text old : Text) (s s' : S)
      → disk.write name text s ≡ ok s'
      → disk.read s name ≡ some old
      → disk.read s' other ≡ (if name == other then some (old ++ text) else disk.read s other)

module _ {S : Type 0} (disk : Disk S) where
  abbrev written : S → Result S → S × Result (Unit {0})
  written s (ok s') = (s', ok tt)
  written s (err message) = (s, err message)
  written s panic = (s, panic)

  -- `StringToNewFile`; a file whose text is not written stays, empty.
  unfoldable pub string_to_new_file : Text → Text → S → S × Result (Unit {0})
  string_to_new_file file_path text s = elim (disk.create file_path s) [
    | ok s' ↦ written s' (disk.write file_path text s')
    | err message ↦ (s, err message)
    | panic ↦ (s, panic)
  ]

  both_done :
      (file_path text : Text) (s s' : S)
      → string_to_new_file file_path text s ≡ (s', ok tt)
      → (empty : S) × (disk.create file_path s ≡ ok empty)
        × (disk.write file_path text empty ≡ ok s')
  unfolding string_to_new_file
  both_done file_path text s s' e = elim (Result-cases (disk.create file_path s)) [
    | inr (inl (message, created)) ↦ ground arith
    | inr (inr created) ↦ ground arith
    | inl (empty, created) ↦ elim (Result-cases (disk.write file_path text empty)) [
      | inl (full, wrote) ↦ (empty, created, ground arith)
      | inr (inl (message, wrote)) ↦ ground arith
      | inr (inr wrote) ↦ ground arith
    ]
  ]

  -- A file that was written without an error holds the text, and no other file has changed.
  pub read-string_to_new_file :
      Writes disk
      → (file_path other text : Text) (s s' : S) → string_to_new_file file_path text s ≡ (s', ok tt)
      → disk.read s' other ≡ (if file_path == other then some text else disk.read s other)
  read-string_to_new_file laws file_path other text s s' e =
      let (empty, created, wrote) = both_done file_path text s s' e in
      let there : disk.read empty file_path ≡ some [] =
        rw (laws.read-create file_path file_path s empty created, eq_refl file_path) refl in
      ground (
        arith,
        laws.read-write file_path other text [] empty s' wrote there,
        laws.read-create file_path other s empty created,
      )

-- A disk in memory, on which nothing fails.
abbrev pub Memory : Type 0
Memory = List (Text × Text)

abbrev or_empty : Option Text → Text
or_empty none = []
or_empty (some text) = text

abbrev pub memory_disk : Disk Memory
memory_disk = record {
  create = λ name files. ok (insert name [] files);
  write = λ name text files. ok (insert name (or_empty (lookup name files) ++ text) files);
  read = λ files name. lookup name files;
}

pub memory_disk-Writes : Writes memory_disk
memory_disk-Writes = record {
  read-create = λ name other s s' e. ground (arith, lookup-insert name other [] s);
  read-write = λ name other text old s s' e there.
      ground (arith, lookup-insert name other (or_empty (lookup name s) ++ text) s);
}
