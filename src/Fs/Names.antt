-- ===== src/Fs/Names.antt =====
-- No operation of kernel/src/fs.rs gives two files the same name.
use latency_os.Prelude.{
  ltb, length, ◌⊎◌, ℕ, ◌<◌, ◌≡◌, refl, sym, ◌∙◌, ap, subst, ◌≢◌, arith, Bool, Option, none, some,
  List, [], Option-cases, Bool-cases, inl, inr, update, true, false,
}
use latency_os.Fs.{
  FileEntry, Fs, FsResult, ok, failed, find, free_from, named, mkdir_at, create_at, delete_at,
  rename_at, fs_mkdir, fs_create_internal, fs_delete, fs_rename, is_below, at_path, max_file_size,
}
use latency_os.Fs.Path.{NormalPath, normal, refused, normalize_path}
use latency_os.Fs.Store.{
  IsUnique, update-IsUnique, HasSlot, find-HasSlot, find-absent, free_from-none,
}

-- One slot was written. It was free or had the name `path`, which no other slot has, and the new
-- entry, if there is one, has this name too.
pub record Writes (path : List ℕ) (i : ℕ) (o : Option FileEntry) (fs fs' : Fs) : Type 0 where
  pub inside : i < 128
  pub written : fs'.files ≡ update fs.files i o
  pub old : (f : FileEntry) → fs.files i ≡ some f → f.name ≡ path
  pub alone : (j : ℕ) (f : FileEntry) → j < 128 → fs.files j ≡ some f → f.name ≡ path → j ≡ i
  pub new : (f : FileEntry) → o ≡ some f → f.name ≡ path

pub Writes-IsUnique :
    {path : List ℕ} {i : ℕ} {o : Option FileEntry} {fs fs' : Fs}
    → Writes path i o fs fs'
    → IsUnique fs.files
    → IsUnique fs'.files
Writes-IsUnique {path} {i} {o} {fs} {fs'} w u = subst IsUnique (sym w.written) (
    update-IsUnique fs.files i o u
      λ e p j f lt stored same. w.alone j f lt stored (same ∙ w.new e p))

abbrev pub entry_name : Option FileEntry → List ℕ
entry_name none = []
entry_name (some g) = g.name

module _ (fs : Fs) (path : List ℕ) (u : IsUnique fs.files) where
  -- the slot that has the name is written
  found-Writes :
      (i : ℕ) (f : FileEntry) (o : Option FileEntry) (fs' : Fs)
      → find (named path) fs ≡ some (i, f)
      → fs'.files ≡ update fs.files i o
      → ((e : FileEntry) → o ≡ some e → e.name ≡ path)
      → Writes path i o fs fs'
  found-Writes i f o fs' e written new =
      let slot = find-HasSlot fs path (i, f) e in
      record {
        inside = slot.inside;
        written = written;
        old = λ g stored.
            let same : some f ≡ some g = sym slot.stored ∙ stored in
            ap entry_name (sym same) ∙ slot.name;
        alone = λ j g lt stored same.
            u.unique j i g f lt slot.inside stored slot.stored (same ∙ sym slot.name);
        new = new;
      }

  -- a free slot is written
  free-Writes :
      (i : ℕ) (e : FileEntry) (fs' : Fs)
      → find (named path) fs ≡ none
      → free_from fs.files 128 0 ≡ some i
      → fs'.files ≡ update fs.files i (some e)
      → e.name ≡ path
      → Writes path i (some e) fs fs'
  free-Writes i e fs' missing free written name =
      let (_, inside, empty) = free_from-none fs.files 128 0 i free in
      record {
        inside = omega arith;
        written = written;
        old = λ g stored. absurd (ground (arith, empty, stored));
        alone = λ j g lt stored same. absurd (find-absent fs path missing j g lt stored same);
        new = λ g p. ap entry_name (sym p) ∙ name;
      }

  pub create_at-Writes :
      (now : ℕ) (content : List ℕ) (read_only : Bool) {i : ℕ} {fs' : Fs}
      → create_at now path content read_only fs ≡ ok i fs'
      → (e : FileEntry) × Writes path i (some e) fs fs'
        × (e.contents ≡ content)
        × (e.is_dir ≡ false)
  unfolding create_at
  create_at-Writes now content read_only {i} {fs'} done =
      elim (Option-cases (find (named path) fs)) [
        | inr ((j, f), e) ↦ elim (Bool-cases f.read_only) [
          | inl fixed ↦ absurd (ground (arith, e, fixed, done))
          | inr writable ↦
              let e' : FileEntry = record f {
                contents = content;
                is_dir = false;
                modified_tsc = now;
              } in
              let slot : i ≡ j = ground (arith, e, writable, done) in
              let written : fs'.files ≡ update fs.files j (some e') =
                ground (arith, e, writable, done) in
              let slot_name : f.name ≡ path = (find-HasSlot fs path (j, f) e).name in
              (
                e',
                subst (λ (k : ℕ). Writes path k (some e') fs fs') (sym slot)
                    (found-Writes j f (some e') fs' e written
                      λ g p. ap entry_name (sym p) ∙ slot_name),
                refl,
                refl,
              )
        ]
        | inl missing ↦ elim (Option-cases (free_from fs.files 128 0)) [
          | inl full ↦ absurd (ground (arith, missing, full, done))
          | inr (j, free) ↦
              let e' : FileEntry = record {
                name = path;
                contents = content;
                is_dir = false;
                read_only = read_only;
                modified_tsc = now;
              } in
              let slot : i ≡ j = ground (arith, missing, free, done) in
              let written : fs'.files ≡ update fs.files j (some e') =
                ground (arith, missing, free, done) in
              (
                e',
                subst (λ (k : ℕ). Writes path k (some e') fs fs') (sym slot)
                    (free-Writes j e' fs' missing free written refl),
                refl,
                refl,
              )
        ]
      ]

  -- A directory that is there already is left as it is.
  pub mkdir_at-Writes :
      (now : ℕ) {i : ℕ} {fs' : Fs}
      → mkdir_at now path fs ≡ ok i fs'
      → (fs' ≡ fs)
        ⊎ ((e : FileEntry) × Writes path i (some e) fs fs'
            × (e.is_dir ≡ true)
            × ((j : ℕ) (f : FileEntry) → j < 128 → fs.files j ≡ some f → f.name ≢ path))
  unfolding mkdir_at
  mkdir_at-Writes now {i} {fs'} done = elim (Option-cases (find (named path) fs)) [
    | inr ((j, f), e) ↦ inl (ground (arith, e, done))
    | inl missing ↦ elim (Option-cases (free_from fs.files 128 0)) [
      | inl full ↦ absurd (ground (arith, missing, full, done))
      | inr (j, free) ↦
          let e' : FileEntry = record {
            name = path;
            contents = [];
            is_dir = true;
            read_only = false;
            modified_tsc = now;
          } in
          let slot : i ≡ j = ground (arith, missing, free, done) in
          let written : fs'.files ≡ update fs.files j (some e') =
            ground (arith, missing, free, done) in
          inr (
            e',
            subst (λ (k : ℕ). Writes path k (some e') fs fs') (sym slot)
                (free-Writes j e' fs' missing free written refl),
            refl,
            find-absent fs path missing,
          )
    ]
  ]

  pub delete_at-Writes :
      {fs' : Fs} → delete_at path fs ≡ ok tt fs' → (i : ℕ) × Writes path i none fs fs'
  unfolding delete_at
  delete_at-Writes {fs'} done = elim (Option-cases (find (is_below path) fs)) [
    | inr (r, below) ↦ absurd (ground (arith, below, done))
    | inl empty ↦ elim (Option-cases (find (named path) fs)) [
      | inl missing ↦ absurd (ground (arith, empty, missing, done))
      | inr ((j, f), e) ↦ elim (Bool-cases f.read_only) [
        | inl fixed ↦ absurd (ground (arith, empty, e, fixed, done))
        | inr writable ↦
            let written : fs'.files ≡ update fs.files j none =
              ground (arith, empty, e, writable, done) in
            (j, found-Writes j f none fs' e written λ g p. absurd (ground (arith, p)))
      ]
    ]
  ]

-- what `fs_rename` does: an entry under the old name gets the new one, which no entry has
pub record Renames (old new : List ℕ) (fs fs' : Fs) : Type 0 where
  pub slot : ℕ
  pub entry : FileEntry
  pub entry' : FileEntry
  pub from : HasSlot fs old slot entry
  pub absent : (j : ℕ) (f : FileEntry) → j < 128 → fs.files j ≡ some f → f.name ≢ new
  pub written : fs'.files ≡ update fs.files slot (some entry')
  pub name : entry'.name ≡ new
  pub contents : entry'.contents ≡ entry.contents
  pub kind : entry'.is_dir ≡ entry.is_dir

pub rename_at-Renames :
    (now : ℕ) (old new : List ℕ) (fs : Fs) {fs' : Fs}
    → rename_at now old new fs ≡ ok tt fs'
    → Renames old new fs fs'
unfolding rename_at
rename_at-Renames now old new fs {fs'} done = elim (Option-cases (find (named new) fs)) [
  | inr (r, taken) ↦ absurd (ground (arith, taken, done))
  | inl missing ↦ elim (Option-cases (find (named old) fs)) [
    | inl gone ↦ absurd (ground (arith, missing, gone, done))
    | inr ((j, f), e) ↦ elim (Bool-cases f.read_only) [
      | inl fixed ↦ absurd (ground (arith, missing, e, fixed, done))
      | inr writable ↦ record {
        slot = j;
        entry = f;
        entry' = record f { name = new; modified_tsc = now };
        from = find-HasSlot fs old (j, f) e;
        absent = find-absent fs new missing;
        written = ground (arith, missing, e, writable, done);
        name = refl;
        contents = refl;
        kind = refl;
      }
    ]
  ]
]

pub Renames-IsUnique :
    {old new : List ℕ} {fs fs' : Fs}
    → Renames old new fs fs'
    → IsUnique fs.files
    → IsUnique fs'.files
Renames-IsUnique {old} {new} {fs} {fs'} r u = subst IsUnique (sym r.written) (
    update-IsUnique fs.files r.slot (some (r.entry')) u λ e p j f lt stored same.
      absurd (r.absent j f lt stored (same ∙ ap entry_name (sym p) ∙ r.name)))

-- An operation that changes the table and succeeds, at some time.
pub data Changes (fs : Fs) : Fs → Type 0 where
  mkdir :
      (now : ℕ) (path : List ℕ) {i : ℕ} {fs' : Fs}
      → fs_mkdir now path fs ≡ ok i fs'
      → Changes fs fs'
  create :
      (now : ℕ) (name content : List ℕ) (read_only : Bool) {i : ℕ} {fs' : Fs}
      → fs_create_internal now name content read_only fs ≡ ok i fs'
      → Changes fs fs'
  delete : (name : List ℕ) {fs' : Fs} → fs_delete name fs ≡ ok tt fs' → Changes fs fs'
  rename :
      (now : ℕ) (old new : List ℕ) {fs' : Fs}
      → fs_rename now old new fs ≡ ok tt fs'
      → Changes fs fs'

-- A path that an operation succeeds on can be normalized.
pub at_path-normal :
    {A : Type 0} (path : List ℕ) (fs : Fs) (next : List ℕ → FsResult A) {r : A} {fs' : Fs}
    → at_path path fs next ≡ ok r fs'
    → (p : List ℕ) × (normalize_path path fs.cwd ≡ normal p) × (next p ≡ ok r fs')
at_path-normal {A} path fs next {r} {fs'} done = go (normalize_path path fs.cwd) refl done
  where
    go :
        (n : NormalPath)
        → normalize_path path fs.cwd ≡ n
        → elim n [ refused e ↦ failed e | normal p ↦ next p ] ≡ ok r fs'
        → (p : List ℕ) × (normalize_path path fs.cwd ≡ normal p) × (next p ≡ ok r fs')
    go (refused e) q d = absurd (ground (arith, d))
    go (normal p) q d = (p, q, d)

pub create-at_path :
    (now : ℕ) (name content : List ℕ) (read_only : Bool) (fs : Fs) {i : ℕ} {fs' : Fs}
    → fs_create_internal now name content read_only fs ≡ ok i fs'
    → (p : List ℕ) × (normalize_path name fs.cwd ≡ normal p)
      × (create_at now p content read_only fs ≡ ok i fs')
unfolding fs_create_internal
create-at_path now name content read_only fs {i} {fs'} done =
    elim (Bool-cases (ltb max_file_size (length content))) [
      | inl large ↦ absurd (ground (arith, large, done))
      | inr small ↦
          at_path-normal name fs (λ p. create_at now p content read_only fs)
            (ground (arith, small, done))
    ]

-- Whatever operation on the file system succeeds, no two files have the same name afterwards, if
-- none had before.
pub Changes-IsUnique : {fs fs' : Fs} → Changes fs fs' → IsUnique fs.files → IsUnique fs'.files
unfolding fs_mkdir fs_delete fs_rename
Changes-IsUnique {fs} {fs'} (mkdir now path {i} done) u =
    let (p, _, e) = at_path-normal path fs (λ p. mkdir_at now p fs) done in
    elim (mkdir_at-Writes fs p u now {i = i} e) [
      | inl same ↦ subst (λ (s : Fs). IsUnique s.files) (sym same) u
      | inr (entry, w, _, _) ↦ Writes-IsUnique w u
    ]
Changes-IsUnique {fs} {fs'} (create now name content read_only {i} done) u =
    let (p, _, e) = create-at_path now name content read_only fs done in
    let (entry, w, _, _) = create_at-Writes fs p u now content read_only e in Writes-IsUnique w u
Changes-IsUnique {fs} {fs'} (delete name done) u =
    let (p, _, e) = at_path-normal name fs (λ p. delete_at p fs) done in
    let (i, w) = delete_at-Writes fs p u e in Writes-IsUnique w u
Changes-IsUnique {fs} {fs'} (rename now old new done) u =
    let (p, _, e) = at_path-normal old fs (λ p. at_path new fs λ q. rename_at now p q fs) done in
    let (q, _, e') = at_path-normal new fs (λ q. rename_at now p q fs) e in
    Renames-IsUnique (rename_at-Renames now p q fs e') u
