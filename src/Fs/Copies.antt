-- ===== src/Fs/Copies.antt =====
-- What is read after `fs_copy` of kernel/src/fs.rs.
use latency_os.Prelude.{ℕ, Option, none, some, List}
use latency_os.Fs.{Fs, FsResult, failed}
use latency_os.Fs.Path.{file_not_found}
use latency_os.Fs.Reads.{Vram, fs_write}

-- `fs_copy` with both paths normalized
abbrev copy_between : Vram → ℕ → List ℕ → Fs → Option (List ℕ) → FsResult Unit
copy_between vram now dst fs none = failed file_not_found
copy_between vram now dst fs (some contents) = fs_write vram now dst contents fs
