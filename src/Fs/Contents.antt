-- ===== src/Fs/Contents.antt =====
-- What the exact search of `fs_read` in kernel/src/fs.rs finds after an operation: "read" is `read_at` in
-- this file. What the fallbacks of `fs_read` may find is not looked at.
use latency_os.Prelude.{
  ap₂, ℕ, ◌≡◌, refl, sym, ◌∙◌, ap, ◌≢◌, arith, Bool, Option, none, some, List, Bool-cases, inl, inr,
  Cells, update, true, false, same_bytes, if◌then◌else◌,
}
use latency_os.Fs.{
  at_path, FileEntry, Fs, ok, mkdir_at, fs_mkdir, delete_at, rename_at, fs_create_internal,
  fs_delete, fs_rename, read_at,
}
use native.Mathlib.Decide.{ℕ_discrete}
use latency_os.Fs.Path.{normal, normalize_path}
use latency_os.Fs.Store.{
  IsUnique, HasSlot, read_at-HasSlot, read_at-absent, read_at-update, same_bytes-eq,
  same_bytes_refl, update_same, update_other, readable_contents,
}
use latency_os.Fs.Names.{
  entry_name, Writes, Writes-IsUnique, create_at-Writes, mkdir_at-Writes, delete_at-Writes, Renames,
  rename_at-Renames, Renames-IsUnique, at_path-normal, create-at_path,
}

-- Another path than the one that was written is read as before.
read_at-other :
    {path : List ℕ} {i : ℕ} {o : Option FileEntry} {fs fs' : Fs}
    → Writes path i o fs fs'
    → (q : List ℕ) → q ≢ path
    → read_at q fs' ≡ read_at q fs
read_at-other {path} {i} {o} {fs} {fs'} w q ne =
    read_at-update fs fs' q i o w.written (λ f stored name. ne (sym name ∙ w.old f stored))
      (λ f p name. ne (sym name ∙ w.new f p))

ne-same_bytes : (q p : List ℕ) → same_bytes q p ≡ false → q ≢ p
ne-same_bytes q p e same =
    let t : same_bytes q p ≡ true = ap (λ (x : List ℕ). same_bytes x p) same ∙ same_bytes_refl p in
    ground (arith, t, e)

stored_at :
    (fs : Fs) (fs' : Fs) (i : ℕ) (o : Option FileEntry)
    → fs'.files ≡ update fs.files i o
    → fs'.files i ≡ o
stored_at fs fs' i o written =
    ap (λ (files : Cells (Option FileEntry)). files i) written ∙ update_same fs.files i o

-- the path that was written, once there is a file, once there is none
read_at-written :
    {path : List ℕ} {i : ℕ} {e : FileEntry} {fs fs' : Fs}
    → Writes path i (some e) fs fs'
    → IsUnique fs.files
    → read_at path fs' ≡ readable_contents e
read_at-written {path} {i} {e} {fs} {fs'} w u =
    read_at-HasSlot fs' path i e (Writes-IsUnique w u) (record {
      inside = w.inside;
      stored = stored_at fs fs' i (some e) w.written;
      name = w.new e refl;
    })

read_at-removed :
    {path : List ℕ} {i : ℕ} {fs fs' : Fs} → Writes path i none fs fs' → read_at path fs' ≡ none
read_at-removed {path} {i} {fs} {fs'} w = read_at-absent fs' path λ j f lt stored name.
    elim (ℕ_discrete j i) [
      | yes same ↦
          let gone : fs'.files i ≡ none = stored_at fs fs' i none w.written in
          let there : fs'.files i ≡ some f = sym (ap fs'.files same) ∙ stored in
          ground (arith, gone, there)
      | no other ↦
          let kept : fs'.files j ≡ fs.files j =
            ap (λ (files : Cells (Option FileEntry)). files j) w.written
            ∙ update_other fs.files i j none other in
          other (w.alone j f lt (sym kept ∙ stored) name)
    ]

-- After a file was created or written, its path is read as the new content, and every other path as
-- before. `p` is the normal form of the name; no two files had the same name before.
pub read_at-fs_create_internal :
    (now : ℕ) (name content : List ℕ) (read_only : Bool) (fs : Fs) {i : ℕ} {fs' : Fs} (p q : List ℕ)
    → IsUnique fs.files
    → fs_create_internal now name content read_only fs ≡ ok i fs'
    → normalize_path name fs.cwd ≡ normal p
    → read_at q fs' ≡ (if same_bytes q p then some content else read_at q fs)
read_at-fs_create_internal now name content read_only fs {i} {fs'} p q u done path =
    let (p', path', e) = create-at_path now name content read_only fs done in
    let same : p' ≡ p = ground (arith, path, path') in
    let (entry, w, stored, file) = create_at-Writes fs p' u now content read_only e in
    elim (Bool-cases (same_bytes q p)) [
      | inl t ↦
          let it : read_at q fs' ≡ readable_contents entry =
            ap (λ (x : List ℕ). read_at x fs') (same_bytes-eq q p t ∙ sym same)
            ∙ read_at-written w u in
          rw t (it ∙ rw file (ap some stored))
      | inr f ↦ rw f (read_at-other w q λ e. ne-same_bytes q p f (e ∙ same))
    ]

-- Making a directory changes nothing that can be read, at its own path or at any other: a file that
-- has the path keeps its content, and a new entry holds no file. No two files had the
-- same name before.
pub read_at-fs_mkdir :
    (now : ℕ) (path : List ℕ) (fs : Fs) {i : ℕ} {fs' : Fs} (q : List ℕ)
    → IsUnique fs.files
    → fs_mkdir now path fs ≡ ok i fs'
    → read_at q fs' ≡ read_at q fs
unfolding fs_mkdir
read_at-fs_mkdir now path fs {i} {fs'} q u done =
    let (p, _, e) = at_path-normal path fs (λ x. mkdir_at now x fs) done in
    elim (mkdir_at-Writes fs p u now {i = i} e) [
      | inl same ↦ ap (read_at q) same
      | inr (entry, w, dir, absent) ↦ elim (Bool-cases (same_bytes q p)) [
        | inl t ↦
            let at_p : q ≡ p = same_bytes-eq q p t in
            let after : read_at p fs' ≡ none = read_at-written w u ∙ rw dir refl in
            ap (λ (x : List ℕ). read_at x fs') at_p
            ∙ after
            ∙ sym (read_at-absent fs p absent)
            ∙ ap (λ (x : List ℕ). read_at x fs) (sym at_p)
        | inr f ↦ read_at-other w q (ne-same_bytes q p f)
      ]
    ]

-- After a file or an empty directory was deleted, nothing is read at its path, and every other path
-- is read as before. `p` is the normal form of the name; no two files had the same name before.
pub read_at-fs_delete :
    (name : List ℕ) (fs : Fs) {fs' : Fs} (p q : List ℕ)
    → IsUnique fs.files
    → fs_delete name fs ≡ ok tt fs'
    → normalize_path name fs.cwd ≡ normal p
    → read_at q fs' ≡ (if same_bytes q p then none else read_at q fs)
unfolding fs_delete
read_at-fs_delete name fs {fs'} p q u done path =
    let (p', path', e) = at_path-normal name fs (λ x. delete_at x fs) done in
    let same : p' ≡ p = ground (arith, path, path') in
    let (i, w) = delete_at-Writes fs p' u e in
    elim (Bool-cases (same_bytes q p)) [
      | inl t ↦
          rw t (
            ap (λ (x : List ℕ). read_at x fs') (same_bytes-eq q p t ∙ sym same) ∙ read_at-removed w)
      | inr f ↦ rw f (read_at-other w q λ e. ne-same_bytes q p f (e ∙ same))
    ]

module _ {old new : List ℕ} {fs fs' : Fs} (r : Renames old new fs fs') (u : IsUnique fs.files) where
  renamed-HasSlot : HasSlot fs' new r.slot r.entry'
  renamed-HasSlot = record {
    inside = r.from.inside;
    stored = stored_at fs fs' r.slot (some (r.entry')) r.written;
    name = r.name;
  }

  read_at-new : read_at new fs' ≡ read_at old fs
  read_at-new =
      read_at-HasSlot fs' new r.slot r.entry' (Renames-IsUnique r u) renamed-HasSlot
      ∙ ap₂ (λ (d : Bool) (c : List ℕ). if d then none else some c) r.kind r.contents
      ∙ sym (read_at-HasSlot fs old r.slot r.entry u r.from)

  -- Where the two names differ, no slot has the old one any more.
  read_at-old : old ≢ new → read_at old fs' ≡ none
  read_at-old differ = read_at-absent fs' old λ j f lt stored name. elim (ℕ_discrete j r.slot) [
    | yes same ↦
        let there : some (r.entry') ≡ some f =
          sym (stored_at fs fs' r.slot (some (r.entry')) r.written)
          ∙ sym (ap fs'.files same)
          ∙ stored in
        differ (sym name ∙ ap entry_name (sym there) ∙ r.name)
    | no other ↦
        let kept : fs'.files j ≡ fs.files j =
          ap (λ (files : Cells (Option FileEntry)). files j) r.written
          ∙ update_other fs.files r.slot j (some (r.entry')) other in
        other (
          u.unique j r.slot f r.entry lt r.from.inside (sym kept ∙ stored) r.from.stored
            (name ∙ sym r.from.name))
  ]

  read_at-neither : (q : List ℕ) → q ≢ old → q ≢ new → read_at q fs' ≡ read_at q fs
  read_at-neither q not_old not_new =
      read_at-update fs fs' q r.slot (some (r.entry')) r.written
        (λ f stored name.
          not_old (sym name ∙ ap entry_name (sym stored ∙ r.from.stored) ∙ r.from.name))
        (λ f p name. not_new (sym name ∙ ap entry_name (sym p) ∙ r.name))

  read_at-Renames :
      (q : List ℕ)
      → read_at q fs' ≡ (
          if same_bytes q new
          then read_at old fs
          else if same_bytes q old
          then none
          else read_at q fs)
  read_at-Renames q = elim (Bool-cases (same_bytes q new)) [
    | inl t ↦ rw t (ap (λ (x : List ℕ). read_at x fs') (same_bytes-eq q new t) ∙ read_at-new)
    | inr f ↦ rw f (elim (Bool-cases (same_bytes q old)) [
      | inl t ↦
          let same : q ≡ old = same_bytes-eq q old t in
          rw t (
            ap (λ (x : List ℕ). read_at x fs') same
            ∙ read_at-old (λ e. ne-same_bytes q new f (same ∙ e)))
      | inr g ↦ rw g (read_at-neither q (ne-same_bytes q old g) (ne-same_bytes q new f))
    ])
  ]

-- After a rename, the new path is read as the old one was, nothing is read at the old path, and
-- every other path is read as before. `p` and `p'` are the normal forms of the two names; no two
-- files had the same name before.
pub read_at-fs_rename :
    (now : ℕ) (old new : List ℕ) (fs : Fs) {fs' : Fs} (p p' q : List ℕ)
    → IsUnique fs.files
    → fs_rename now old new fs ≡ ok tt fs'
    → normalize_path old fs.cwd ≡ normal p
    → normalize_path new fs.cwd ≡ normal p'
    → read_at q fs'
      ≡ (if same_bytes q p' then read_at p fs else if same_bytes q p then none else read_at q fs)
unfolding fs_rename
read_at-fs_rename now old new fs {fs'} p p' q u done old_path new_path =
    let (x, x_path, e) =
      at_path-normal old fs (λ x. at_path new fs λ y. rename_at now x y fs) done in
    let (y, y_path, e') = at_path-normal new fs (λ y. rename_at now x y fs) e in
    let first : x ≡ p = ground (arith, old_path, x_path) in
    let second : y ≡ p' = ground (arith, new_path, y_path) in
    read_at-Renames (rename_at-Renames now x y fs e') u q
    ∙ ap₂
        (λ (a b : List ℕ).
          if same_bytes q b then read_at a fs else if same_bytes q a then none else read_at q fs)
        first second
