-- ===== src/Fs.antt =====
-- kernel/src/fs.rs: the file system in memory. A `&str` is its bytes, which are UTF-8; cutting them
-- at `/` keeps that, so the `from_utf8` tests of the source do not fail.
pub mod Path
pub mod Store
pub mod Names
pub mod Contents
pub mod Reads
pub mod Exact
pub mod Copies
mod Tests
use latency_os.Prelude.{
  ℕ, zero, suc, ◌+◌, Bool, true, false, not, ◌&&◌, Option, none, some, List, [], ◌∷◌, Cells, update,
  ◌==◌, length, get_elem?, take, drop, same_bytes, ltb, if◌then◌else◌,
}
use latency_os.Fs.Path.{
  FsError, file_not_found, disk_full, file_too_large, read_only_error, directory_not_empty,
  already_exists, invalid_name, NormalPath, normal, refused, normalize_path, slash,
}

-- A slot with `used` set: `name` is up to `name_len`, and `contents` is
-- `data` up to `size`.
pub record FileEntry : Type 0 where
  pub name : List ℕ
  pub contents : List ℕ
  pub is_dir : Bool
  pub read_only : Bool
  pub modified_tsc : ℕ

-- What is passed on to the export disk.
pub data Sync : Type 0 where
  saved : (path contents : List ℕ) → Sync
  removed : (path : List ℕ) → Sync

-- `none` is a slot that is not used; `cwd` is the shell's current directory; `synced` holds what was
-- passed on to the export disk, the last one first.
pub record Fs : Type 0 where
  pub files : Cells (Option FileEntry)
  pub cwd : List ℕ
  pub synced : List Sync

-- An error leaves the file system as it was.
pub data FsResult (A : Type 0) : Type 0 where
  ok : A → Fs → FsResult A
  failed : FsError → FsResult A

abbrev pub max_files : ℕ
max_files = 128

abbrev pub max_file_size : ℕ
max_file_size = 4096

-- `file.used && test(file)`
abbrev pub accept : (FileEntry → Bool) → Option FileEntry → Option FileEntry
accept test none = none
accept test (some f) = if test f then some f else none

-- the loops over `FS.files.iter().enumerate()`: the first used slot that passes a test, and the
-- first that is not used, among `n` from `i` on
unfoldable pub find_from :
    (FileEntry → Bool) → Cells (Option FileEntry) → ℕ → ℕ → Option (ℕ × FileEntry)
find_from test files zero i = none
find_from test files (suc n) i =
    let rest = find_from test files n (suc i) in
    elim (accept test (files i)) [ none ↦ rest | some f ↦ some (i, f) ]

unfoldable pub free_from : Cells (Option FileEntry) → ℕ → ℕ → Option ℕ
free_from files zero i = none
free_from files (suc n) i =
    let rest = free_from files n (suc i) in elim (files i) [ none ↦ some i | some f ↦ rest ]

abbrev pub find : (FileEntry → Bool) → Fs → Option (ℕ × FileEntry)
find test fs = find_from test fs.files max_files 0

abbrev pub named : List ℕ → FileEntry → Bool
named path f = same_bytes f.name path

-- `s.starts_with(t)`
unfoldable pub starts_with : List ℕ → List ℕ → Bool
starts_with s t = same_bytes (take (length t) s) t

abbrev pub vram_prefix : List ℕ
vram_prefix = b'/' ∷ b'v' ∷ b'r' ∷ b'a' ∷ b'm' ∷ []

abbrev pub sync_file : Bool → List ℕ → List ℕ → List Sync → List Sync
sync_file skip path content synced =
    if not skip && not (starts_with path vram_prefix) then saved path content ∷ synced else synced

abbrev pub sync_delete : List ℕ → List Sync → List Sync
sync_delete path synced =
    if not (starts_with path vram_prefix) then removed path ∷ synced else synced

-- the part of `fs_mkdir` behind the normalization of its path; `now` is the time stamp counter
unfoldable pub mkdir_at : ℕ → List ℕ → Fs → FsResult ℕ
unfolding find_from free_from
mkdir_at now path fs = elim (find (named path) fs) [
  | some (i, f) ↦ ok i fs
  | none ↦ elim (free_from fs.files max_files 0) [
    | none ↦ failed disk_full
    | some i ↦ ok i (record fs {
      files = update fs.files i (
          some (record {
            name = path;
            contents = [];
            is_dir = true;
            read_only = false;
            modified_tsc = now;
          }));
    })
  ]
]

-- the part of `fs_create_internal` behind the normalization of its path
unfoldable pub create_at : ℕ → List ℕ → List ℕ → Bool → Fs → FsResult ℕ
unfolding find_from free_from starts_with
create_at now path content read_only fs =
    let synced = sync_file read_only path content fs.synced in
    elim (find (named path) fs) [
      | some (i, f) ↦
          if f.read_only
          then failed read_only_error
          else ok i (record fs {
            files =
                update fs.files i
                  (some (record f { contents = content; is_dir = false; modified_tsc = now }));
            synced = synced;
          })
      | none ↦ elim (free_from fs.files max_files 0) [
        | none ↦ failed disk_full
        | some i ↦ ok i (record fs {
          files = update fs.files i (
              some (record {
                name = path;
                contents = content;
                is_dir = false;
                read_only = read_only;
                modified_tsc = now;
              }));
          synced = synced;
        })
      ]
    ]

-- a used slot below the directory `path`, which is not `path` itself
abbrev pub is_below : List ℕ → FileEntry → Bool
is_below path f =
    not (same_bytes f.name path)
    && (starts_with f.name path
        && elim (get_elem? f.name (length path)) [ none ↦ false | some b ↦ b == slash ])

unfoldable pub delete_at : List ℕ → Fs → FsResult Unit
unfolding find_from starts_with
delete_at path fs = elim (find (is_below path) fs) [
  | some _ ↦ failed directory_not_empty
  | none ↦ elim (find (named path) fs) [
    | none ↦ failed file_not_found
    | some (i, f) ↦
        if f.read_only
        then failed read_only_error
        else ok tt
            (record fs { files = update fs.files i none; synced = sync_delete path fs.synced })
  ]
]

-- An entry that is below a directory keeps its name when the directory is renamed. The test of the
-- length of the new path in front of the search never fails, since a normal path is not empty and
-- shorter than that.
unfoldable pub rename_at : ℕ → List ℕ → List ℕ → Fs → FsResult Unit
unfolding find_from starts_with
rename_at now old new fs = elim (find (named new) fs) [
  | some _ ↦ failed already_exists
  | none ↦ elim (find (named old) fs) [
    | none ↦ failed file_not_found
    | some (i, f) ↦
        if f.read_only
        then failed read_only_error
        else ok tt (record fs {
          files = update fs.files i (some (record f { name = new; modified_tsc = now }));
          synced = sync_file f.is_dir new f.contents (sync_delete old fs.synced);
        })
  ]
]

-- with the path normalized first
abbrev pub at_path : {A : Type 0} → List ℕ → Fs → (List ℕ → FsResult A) → FsResult A
at_path path fs next = elim (normalize_path path fs.cwd) [
  | refused e ↦ failed e
  | normal p ↦ next p
]

unfoldable pub fs_mkdir : ℕ → List ℕ → Fs → FsResult ℕ
unfolding mkdir_at normalize_path
fs_mkdir now path fs = at_path path fs λ p. mkdir_at now p fs

unfoldable pub fs_create_internal : ℕ → List ℕ → List ℕ → Bool → Fs → FsResult ℕ
unfolding create_at normalize_path
fs_create_internal now name content read_only fs =
    if ltb max_file_size (length content)
    then failed file_too_large
    else at_path name fs λ p. create_at now p content read_only fs

unfoldable pub fs_delete : List ℕ → Fs → FsResult Unit
unfolding delete_at normalize_path
fs_delete name fs = at_path name fs λ p. delete_at p fs

unfoldable pub fs_rename : ℕ → List ℕ → List ℕ → Fs → FsResult Unit
unfolding rename_at normalize_path
fs_rename now old_name new_name fs =
    at_path old_name fs λ old. at_path new_name fs λ new. rename_at now old new fs

-- the first search of `fs_read`: the contents of the file with a normalized path
unfoldable pub read_at : List ℕ → Fs → Option (List ℕ)
unfolding find_from
read_at path fs = elim (find (λ f. not f.is_dir && same_bytes f.name path) fs) [
  | none ↦ none
  | some (i, f) ↦ some (f.contents)
]
