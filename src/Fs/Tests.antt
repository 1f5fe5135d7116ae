-- ===== src/Fs/Tests.antt =====
-- Runs of the file system of kernel/src/fs.rs.
use latency_os.Prelude.{
  ℕ, ◌<◌, ◌≡◌, refl, arith, none, some, List, [], ◌∷◌, update, length, same_bytes, true, false,
  if◌then◌else◌,
}
use latency_os.Fs.{
  FileEntry, Fs, saved, removed, ok, fs_create_internal, fs_mkdir, mkdir_at, fs_delete, fs_rename,
  read_at, find_from, free_from, starts_with, create_at, delete_at, rename_at,
}
use latency_os.Fs.Path.{
  normal, normalize_path, normalize_parts, normalize_part, append_part, parent, rfind_slash,
  split_slash, absolute, trim, drop_blanks, blank_length,
}
use latency_os.Vm.Text.{codes}
use latency_os.Fs.Reads.{
  Vram, vfs_is_vram_path, rfind_byte, padded, base_name, to_83_name, fs_read, fs_fallback, or_else,
  fs_exists, fs_is_dir,
}
use latency_os.Fs.Path.Resolve.{render, resolve, All, IsPiece, normalize_path-resolve}
use latency_os.Fs.Store.{IsUnique}
use latency_os.Fs.Names.{create, Changes-IsUnique}
use latency_os.Fs.Exact.{Names, fs_read-fs_create_internal, fs_read-fs_delete, fs_read-fs_rename}

abbrev path_a : List ℕ
path_a = b'/' ∷ b'a' ∷ []

abbrev path_b : List ℕ
path_b = b'/' ∷ b'b' ∷ []

abbrev path_c : List ℕ
path_c = b'/' ∷ b'c' ∷ []

abbrev file : List ℕ → List ℕ → FileEntry
file name contents = record {
  name = name;
  contents = contents;
  is_dir = false;
  read_only = false;
  modified_tsc = 0;
}

-- "/a" in the first slot, "/b" in the third
abbrev two_files : Fs
two_files = record {
  files =
      update (update (λ _. none) 0 (some (file path_a (1 ∷ [])))) 2 (some (file path_b (2 ∷ [])));
  cwd = b'/' ∷ [];
  synced = [];
}

-- a video memory with nothing in it
abbrev no_vram : Vram
no_vram = record { reads = λ _. none; writes = λ _ _. false }

two_files-IsUnique : IsUnique two_files.files
two_files-IsUnique = record { unique = λ i j f g li lj ei ej same. ground arith }

-- " b/../c " is "/c"
normalize_c :
    normalize_path (32 ∷ b'b' ∷ b'/' ∷ b'.' ∷ b'.' ∷ b'/' ∷ b'c' ∷ 9 ∷ []) (b'/' ∷ [])
    ≡ normal path_c
unfolding normalize_path normalize_parts normalize_part append_part parent rfind_slash split_slash
    absolute trim drop_blanks blank_length same_bytes
normalize_c = refl

normalize_plain_c : normalize_path (b'c' ∷ []) (b'/' ∷ []) ≡ normal path_c
unfolding normalize_path normalize_parts normalize_part append_part parent rfind_slash split_slash
    absolute trim drop_blanks blank_length same_bytes
normalize_plain_c = refl

normalize_a : normalize_path path_a (b'/' ∷ []) ≡ normal path_a
unfolding normalize_path normalize_parts normalize_part append_part parent rfind_slash split_slash
    absolute trim drop_blanks blank_length same_bytes
normalize_a = refl

normalize_path-resolve_example :
    (path_c ≡ render (resolve (split_slash (absolute (trim (b'c' ∷ [])) (b'/' ∷ []))) []))
    × All IsPiece (resolve (split_slash (absolute (trim (b'c' ∷ [])) (b'/' ∷ []))) [])
    × (length path_c < 64)
normalize_path-resolve_example =
    normalize_path-resolve (b'c' ∷ []) (b'/' ∷ []) {out = path_c} normalize_plain_c

-- "c" written while there are two files
abbrev three_files : Fs
three_files = record two_files {
  files = update two_files.files 1 (
      some (record {
        name = path_c;
        contents = 3 ∷ [];
        is_dir = false;
        read_only = false;
        modified_tsc = 9;
      }));
  synced = saved path_c (3 ∷ []) ∷ [];
}

creates_c : fs_create_internal 9 (b'c' ∷ []) (3 ∷ []) false two_files ≡ ok 1 three_files
unfolding fs_create_internal create_at find_from free_from starts_with normalize_path
    normalize_parts normalize_part append_part parent rfind_slash split_slash absolute trim
    drop_blanks blank_length same_bytes
creates_c = refl

Changes-IsUnique_example : IsUnique three_files.files
Changes-IsUnique_example =
    Changes-IsUnique {fs = two_files} {fs' = three_files}
      (create 9 (b'c' ∷ []) (3 ∷ []) false creates_c) two_files-IsUnique

b_of_three : Names path_b path_b three_files
unfolding trim drop_blanks blank_length same_bytes vfs_is_vram_path starts_with normalize_path
    normalize_parts normalize_part append_part parent rfind_slash split_slash absolute
b_of_three = record { filled = refl; outside = refl; path = refl }

fs_read-fs_create_internal_example :
    fs_read no_vram path_b three_files
    ≡ or_else
        (if same_bytes path_b path_c then some (3 ∷ []) else read_at path_b two_files)
        (fs_fallback (trim path_b) three_files)
fs_read-fs_create_internal_example =
    fs_read-fs_create_internal no_vram 9 (b'c' ∷ []) (3 ∷ []) false two_files {i = 1}
      {fs' = three_files} path_b path_c path_b two_files-IsUnique creates_c normalize_plain_c
      b_of_three

-- the directory "/c" made while there are two files
abbrev with_directory : Fs
with_directory = record two_files {
  files = update two_files.files 1 (
      some (record {
        name = path_c;
        contents = [];
        is_dir = true;
        read_only = false;
        modified_tsc = 9;
      }));
}

makes_c : fs_mkdir 9 (b'c' ∷ []) two_files ≡ ok 1 with_directory
unfolding fs_mkdir mkdir_at find_from free_from normalize_path normalize_parts normalize_part
    append_part parent rfind_slash split_slash absolute trim drop_blanks blank_length same_bytes
makes_c = refl

abbrev only_b : Fs
only_b = record two_files { files = update two_files.files 0 none; synced = removed path_a ∷ [] }

deletes_a : fs_delete path_a two_files ≡ ok tt only_b
unfolding fs_delete delete_at find_from starts_with normalize_path normalize_parts normalize_part
    append_part parent rfind_slash split_slash absolute trim drop_blanks blank_length same_bytes
deletes_a = refl

a_of_rest : Names path_a path_a only_b
unfolding trim drop_blanks blank_length same_bytes vfs_is_vram_path starts_with normalize_path
    normalize_parts normalize_part append_part parent rfind_slash split_slash absolute
a_of_rest = record { filled = refl; outside = refl; path = refl }

fs_read-fs_delete_example :
    fs_read no_vram path_a only_b
    ≡ or_else
        (if same_bytes path_a path_a then none else read_at path_a two_files)
        (fs_fallback (trim path_a) only_b)
fs_read-fs_delete_example =
    fs_read-fs_delete no_vram path_a two_files {fs' = only_b} path_a path_a path_a
      two_files-IsUnique deletes_a normalize_a a_of_rest

abbrev renamed : Fs
renamed = record two_files {
  files =
      update two_files.files 0
        (some (record (file path_a (1 ∷ [])) { name = path_c; modified_tsc = 4 }));
  synced = saved path_c (1 ∷ []) ∷ removed path_a ∷ [];
}

renames_a : fs_rename 4 path_a (b'c' ∷ []) two_files ≡ ok tt renamed
unfolding fs_rename rename_at find_from starts_with normalize_path normalize_parts normalize_part
    append_part parent rfind_slash split_slash absolute trim drop_blanks blank_length same_bytes
renames_a = refl

c_of_renamed : Names path_c path_c renamed
unfolding trim drop_blanks blank_length same_bytes vfs_is_vram_path starts_with normalize_path
    normalize_parts normalize_part append_part parent rfind_slash split_slash absolute
c_of_renamed = record { filled = refl; outside = refl; path = refl }

fs_read-fs_rename_example :
    fs_read no_vram path_c renamed
    ≡ or_else
        (if same_bytes path_c path_c
          then read_at path_a two_files
          else if same_bytes path_c path_a
          then none
          else read_at path_c two_files)
        (fs_fallback (trim path_c) renamed)
fs_read-fs_rename_example =
    fs_read-fs_rename no_vram 4 path_a (b'c' ∷ []) two_files {fs' = renamed} path_c path_a path_c
      path_c two_files-IsUnique renames_a normalize_a normalize_plain_c c_of_renamed

-- A directory that was renamed leaves what was in it behind.
abbrev nested : Fs
nested = record {
  files =
      update (update (λ _. none) 0 (some (record (file path_a []) { is_dir = true }))) 1
        (some (file (b'/' ∷ b'a' ∷ b'/' ∷ b'x' ∷ []) (7 ∷ [])));
  cwd = b'/' ∷ [];
  synced = [];
}

abbrev orphaned : Fs
orphaned = record nested {
  files =
      update nested.files 0
        (some (record (file path_a []) { is_dir = true; name = path_c; modified_tsc = 4 }));
  synced = removed path_a ∷ [];
}

leaves_entries : fs_rename 4 path_a path_c nested ≡ ok tt orphaned
unfolding fs_rename rename_at find_from starts_with normalize_path normalize_parts normalize_part
    append_part parent rfind_slash split_slash absolute trim drop_blanks blank_length same_bytes
leaves_entries = refl

abbrev path_x_a : List ℕ
path_x_a = b'/' ∷ b'x' ∷ path_a

-- "x/a" is not there, and "/a" is copied in its place
abbrev with_copy : Fs
with_copy = record two_files {
  files = update two_files.files 1 (
      some (record {
        name = path_c;
        contents = 1 ∷ [];
        is_dir = false;
        read_only = false;
        modified_tsc = 9;
      }));
  synced = saved path_c (1 ∷ []) ∷ [];
}

-- After "/a" was deleted, the file "/x/a" is read in its place: it has the same 8.3 name.
abbrev same_short : Fs
same_short = record two_files { files = update two_files.files 2 (some (file path_x_a (5 ∷ []))) }

deleted_yet_read :
    fs_read no_vram path_a (record same_short { files = update same_short.files 0 none })
    ≡ some (5 ∷ [])
unfolding fs_read fs_fallback vfs_is_vram_path to_83_name base_name padded rfind_byte read_at
    find_from starts_with normalize_path normalize_parts normalize_part append_part parent
    rfind_slash split_slash absolute trim drop_blanks blank_length same_bytes
deleted_yet_read = refl

-- "/a" is read by its path, by its name, and by its short name.
short_names :
    (to_83_name (codes "/docs/readme.html") ≡ codes "README  HTM")
    × (fs_exists (codes "x/A") two_files ≡ true)
    × (fs_is_dir (codes "..") two_files ≡ true)
unfolding to_83_name base_name padded rfind_byte fs_exists fs_is_dir find_from rfind_slash trim
    drop_blanks blank_length same_bytes
short_names = (refl, refl, refl)
