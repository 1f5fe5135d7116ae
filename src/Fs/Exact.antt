-- ===== src/Fs/Exact.antt =====
-- What `fs_read` of kernel/src/fs.rs gives after the operations on the table: its exact search, and the
-- fallbacks behind it.
use latency_os.Prelude.{
  ℕ, ◌≡◌, ◌∙◌, ap, Bool, false, Option, none, some, List, [], same_bytes, if◌then◌else◌,
}
use latency_os.Fs.{Fs, ok, read_at, fs_create_internal, fs_delete, fs_rename}
use latency_os.Fs.Path.{normalize_path, normal, trim}
use latency_os.Fs.Store.{IsUnique}
use latency_os.Fs.Contents.{read_at-fs_create_internal, read_at-fs_delete, read_at-fs_rename}
use latency_os.Fs.Reads.{Vram, vfs_is_vram_path, fs_read, fs_fallback, or_else}

-- `name` stands for the normal path `q` outside the video memory.
pub record Names (name q : List ℕ) (fs : Fs) : Type 0 where
  pub filled : same_bytes (trim name) [] ≡ false
  pub outside : vfs_is_vram_path (trim name) ≡ false
  pub path : normalize_path (trim name) fs.cwd ≡ normal q

pub fs_read-read_at :
    (vram : Vram) (name q : List ℕ) (fs : Fs)
    → Names name q fs
    → fs_read vram name fs ≡ or_else (read_at q fs) (fs_fallback (trim name) fs)
unfolding fs_read
fs_read-read_at vram name q fs n = rw n.filled (rw n.outside (rw n.path))

-- After a file was created or written, `fs_read` gives the new content for every name of its path.
-- For a name of another path it gives what its exact search gave before; and if there was no file
-- at that path, what its fallbacks, by base name and by 8.3 name, find in the new table, which may be
-- the new file. `p` and `q` are the normal forms of the names, the one that is read is not below the
-- video memory, and no two files had the same name before.
pub fs_read-fs_create_internal :
    (vram : Vram) (now : ℕ) (created content : List ℕ) (read_only : Bool) (fs : Fs) {i : ℕ}
    {fs' : Fs} (name p q : List ℕ)
    → IsUnique fs.files
    → fs_create_internal now created content read_only fs ≡ ok i fs'
    → normalize_path created fs.cwd ≡ normal p
    → Names name q fs'
    → fs_read vram name fs'
      ≡ or_else
          (if same_bytes q p then some content else read_at q fs)
          (fs_fallback (trim name) fs')
fs_read-fs_create_internal vram now created content read_only fs {i} {fs'} name p q u done path n =
    fs_read-read_at vram name q fs' n
    ∙ ap (λ (found : Option (List ℕ)). or_else found (fs_fallback (trim name) fs'))
        (read_at-fs_create_internal now created content read_only fs p q u done path)

-- After a file or an empty directory was deleted, `fs_read` of a name of its path gives what its
-- fallbacks, by base name and by 8.3 name, find in the new table. For a name of another path it gives
-- what its exact search gave before, or else what its fallbacks find. `p` and `q` are
-- the normal forms of the names, the one that is read is not below the video memory, and no two files
-- had the same name before.
pub fs_read-fs_delete :
    (vram : Vram) (deleted : List ℕ) (fs : Fs) {fs' : Fs} (name p q : List ℕ)
    → IsUnique fs.files
    → fs_delete deleted fs ≡ ok tt fs'
    → normalize_path deleted fs.cwd ≡ normal p
    → Names name q fs'
    → fs_read vram name fs'
      ≡ or_else (if same_bytes q p then none else read_at q fs) (fs_fallback (trim name) fs')
fs_read-fs_delete vram deleted fs {fs'} name p q u done path n =
    fs_read-read_at vram name q fs' n
    ∙ ap (λ (found : Option (List ℕ)). or_else found (fs_fallback (trim name) fs'))
        (read_at-fs_delete deleted fs p q u done path)

-- After a rename, `fs_read` of a name of the new path gives what the exact search gave for the old one
-- before, of a name of the old path nothing by its exact search, and of any other what its exact search
-- gave before; and where that is nothing, what its fallbacks, by base name and by 8.3 name, find in the
-- new table. `p`,
-- `p'` and `q` are the normal forms of the names, the one that is read is not below the video memory,
-- and no two files had the same name before.
pub fs_read-fs_rename :
    (vram : Vram) (now : ℕ) (old new : List ℕ) (fs : Fs) {fs' : Fs} (name p p' q : List ℕ)
    → IsUnique fs.files
    → fs_rename now old new fs ≡ ok tt fs'
    → normalize_path old fs.cwd ≡ normal p
    → normalize_path new fs.cwd ≡ normal p'
    → Names name q fs'
    → fs_read vram name fs'
      ≡ or_else
          (if same_bytes q p' then read_at p fs else if same_bytes q p then none else read_at q fs)
          (fs_fallback (trim name) fs')
fs_read-fs_rename vram now old new fs {fs'} name p p' q u done old_path new_path n =
    fs_read-read_at vram name q fs' n
    ∙ ap (λ (found : Option (List ℕ)). or_else found (fs_fallback (trim name) fs'))
        (read_at-fs_rename now old new fs p p' q u done old_path new_path)
