-- ===== src/Fs/Reads.antt =====
-- kernel/src/fs.rs: `fs_read` with its fallbacks, and what is built on it; `to_83_name` of
-- kernel/src/export_disk.rs and `vfs_is_vram_path` of kernel/src/vfs.rs. What the video memory holds
-- is an argument.
use latency_os.Prelude.{
  ℕ, zero, suc, ◌+◌, ◌-◌, Bool, true, false, not, ◌&&◌, ◌||◌, Option, none, some, List, [], ◌∷◌,
  ◌++◌, ◌==◌, length, get_elem?, take, drop, same_bytes, leb, if◌then◌else◌,
}
use latency_os.Vm.Text.{codes}
use latency_os.Fs.{
  Fs, FileEntry, FsResult, ok, failed, find, find_from, named, starts_with, read_at,
  fs_create_internal, at_path,
}
use latency_os.Fs.Path.{
  file_not_found, disk_full, normal, refused, normalize_path, slash, trim, rfind_slash,
}

-- What `vfs_read` gives for a path, and whether `vfs_write` accepts a content for it.
pub record Vram : Type 0 where
  pub reads : List ℕ → Option (List ℕ)
  pub writes : List ℕ → List ℕ → Bool

unfoldable pub vfs_is_vram_path : List ℕ → Bool
unfolding trim same_bytes starts_with
vfs_is_vram_path path =
    let p = trim path in
    same_bytes p (codes "/vram")
    || same_bytes p (codes "/vram/")
    || starts_with p (codes "/vram/")
    || same_bytes p (codes "vram")
    || starts_with p (codes "vram/")

-- `rfind(c)`
unfoldable pub rfind_byte : ℕ → List ℕ → Option ℕ
rfind_byte c [] = none
rfind_byte c (b ∷ bs) = elim (rfind_byte c bs) [
  | some i ↦ some (suc i)
  | none ↦ if b == c then some 0 else none
]

-- `n` bytes in upper case, with spaces behind the end
unfoldable pub padded : ℕ → List ℕ → List ℕ
padded zero bs = []
padded (suc n) [] = b' ' ∷ padded n []
padded (suc n) (b ∷ bs) = (if leb b'a' b && leb b b'z' then b - 32 else b) ∷ padded n bs

unfoldable pub base_name : List ℕ → List ℕ
unfolding rfind_slash rfind_byte
base_name name = elim (rfind_slash name) [
  | some i ↦ drop (i + 1) name
  | none ↦ elim (rfind_byte b'\\' name) [ some i ↦ drop (i + 1) name | none ↦ name ]
]

unfoldable pub to_83_name : List ℕ → List ℕ
unfolding trim base_name padded rfind_byte
to_83_name name =
    let base = base_name (trim name) in
    elim (rfind_byte b'.' base) [
      | some i ↦ padded 8 (take i base) ++ padded 3 (drop (i + 1) base)
      | none ↦ padded 8 base ++ padded 3 []
    ]

-- the tests of the second and the third search of `fs_read`
abbrev pub base_named : List ℕ → FileEntry → Bool
base_named clean f = not f.is_dir && elim (rfind_slash f.name) [
  | none ↦ false
  | some pos ↦ same_bytes (drop (pos + 1) f.name) clean
]

abbrev pub short_named : List ℕ → FileEntry → Bool
short_named clean f = same_bytes (to_83_name f.name) (to_83_name clean)

abbrev pub contents_found : Option (ℕ × FileEntry) → Option (List ℕ)
contents_found none = none
contents_found (some (i, f)) = some f.contents

-- the searches behind the exact one: by the base name, and by the 8.3 name
unfoldable pub fs_fallback : List ℕ → Fs → Option (List ℕ)
unfolding find_from to_83_name rfind_slash
fs_fallback clean fs = elim (find (base_named clean) fs) [
  | some (i, f) ↦ some f.contents
  | none ↦ contents_found (find (λ f. not f.is_dir && short_named clean f) fs)
]

abbrev pub or_else : Option (List ℕ) → Option (List ℕ) → Option (List ℕ)
or_else (some contents) other = some contents
or_else none other = other

unfoldable pub fs_read : Vram → List ℕ → Fs → Option (List ℕ)
unfolding trim vfs_is_vram_path normalize_path read_at fs_fallback
fs_read vram name fs =
    let clean = trim name in
    if same_bytes clean []
    then none
    else if vfs_is_vram_path clean
    then vram.reads clean
    else elim (normalize_path clean fs.cwd) [
      | refused e ↦ none
      | normal p ↦ or_else (read_at p fs) (fs_fallback clean fs)
    ]

abbrev pub map_unit : FsResult ℕ → FsResult Unit
map_unit (ok i fs) = ok tt fs
map_unit (failed e) = failed e

unfoldable pub fs_write : Vram → ℕ → List ℕ → List ℕ → Fs → FsResult Unit
unfolding trim vfs_is_vram_path fs_create_internal
fs_write vram now name content fs =
    let clean = trim name in
    if vfs_is_vram_path clean
    then (if vram.writes clean content then ok tt fs else failed disk_full)
    else map_unit (fs_create_internal now name content false fs)

unfoldable pub fs_copy : Vram → ℕ → List ℕ → List ℕ → Fs → FsResult Unit
unfolding normalize_path fs_read fs_write
fs_copy vram now src_name dst_name fs = at_path src_name fs λ src. at_path dst_name fs λ dst.
    elim (fs_read vram src fs) [
      | some contents ↦ fs_write vram now dst contents fs
      | none ↦ failed file_not_found
    ]

abbrev pub is_found : Option (ℕ × FileEntry) → Bool
is_found none = false
is_found (some _) = true

unfoldable pub fs_exists : List ℕ → Fs → Bool
unfolding find_from to_83_name
fs_exists name fs = is_found (find (named name) fs) || is_found (find (short_named name) fs)

-- `file.used` with a name that goes on behind `path` and a slash
abbrev pub is_inside : List ℕ → FileEntry → Bool
is_inside path f =
    starts_with f.name path
    && elim (get_elem? f.name (length path)) [ none ↦ false | some b ↦ b == slash ]

unfoldable pub fs_is_dir : List ℕ → Fs → Bool
unfolding trim vfs_is_vram_path normalize_path find_from starts_with
fs_is_dir path fs =
    let clean = trim path in
    if same_bytes clean (codes "/") || same_bytes clean (codes ".") || same_bytes clean (codes "..")
    then true
    else if vfs_is_vram_path clean
        && (same_bytes clean (codes "/vram")
            || same_bytes clean (codes "/vram/")
            || same_bytes clean (codes "vram")
            || same_bytes clean (codes "vram/"))
    then true
    else elim (normalize_path clean fs.cwd) [
      | refused e ↦ false
      | normal p ↦
          same_bytes p (codes "/")
          || same_bytes p (codes "/vram")
          || is_found (find (λ f. f.is_dir && named p f) fs)
          || is_found (find (is_inside p) fs)
    ]
