-- ===== src/Fs/Store.antt =====
-- What the operations on the table of kernel/src/fs.rs do to the files by name.
use latency_os.Prelude.{
  if◌then◌else◌, ℕ, zero, suc, ◌+◌, ◌≤◌, ◌<◌, ◌≡◌, refl, sym, ap, ◌∙◌, ◌≢◌, arith, Bool, true,
  false, Option, none, some, List, [], ◌∷◌, Cells, update, same_bytes, Bool-cases, Option-cases,
  inl, inr, ◌&&◌, not, ◌==◌, ==_iff, ==_refl, ==_ne, ap₂,
}
use native.Mathlib.Decide.{ℕ_discrete}
use mathlib.Core.Bool.{and-eq-true_iff}
use latency_os.Fs.{FileEntry, Fs, accept, find_from, free_from, find, named, read_at}

pub same_bytes-eq : (xs ys : List ℕ) → same_bytes xs ys ≡ true → xs ≡ ys
unfolding same_bytes
same_bytes-eq [] [] h = refl
same_bytes-eq [] (y ∷ ys) h = absurd (ground arith)
same_bytes-eq (x ∷ xs) [] h = absurd (ground arith)
same_bytes-eq (x ∷ xs) (y ∷ ys) h =
    let (head, tail) = (and-eq-true_iff (x == y) (same_bytes xs ys)).0 h in
    ap₂ ◌∷◌ ((==_iff x y).0 head) (same_bytes-eq xs ys tail)

pub same_bytes_refl : (xs : List ℕ) → same_bytes xs xs ≡ true
unfolding same_bytes
same_bytes_refl [] = refl
same_bytes_refl (x ∷ xs) =
    (and-eq-true_iff (x == x) (same_bytes xs xs)).1 (==_refl x, same_bytes_refl xs)

module _ (test : FileEntry → Bool) (files : Cells (Option FileEntry)) where
  -- what a search that finds something tells
  record Found (i n : ℕ) (r : ℕ × FileEntry) : Type 0 where
    first : i ≤ r.0
    last : r.0 < i + n
    stored : files r.0 ≡ some (r.1)
    passes : test (r.1) ≡ true

  accept-some :
      (o : Option FileEntry) (f : FileEntry)
      → accept test o ≡ some f
      → (o ≡ some f) × (test f ≡ true)
  accept-some none f e = absurd (ground arith)
  accept-some (some g) f e = elim (Bool-cases (test g)) [
    | inl t ↦ let same : g ≡ f = ground arith in (ap some same, ap test (sym same) ∙ t)
    | inr t ↦ absurd (ground arith)
  ]

  find_from-Found : (n i : ℕ) (r : ℕ × FileEntry) → find_from test files n i ≡ some r → Found i n r
  unfolding find_from
  find_from-Found zero i r e = absurd (ground arith)
  find_from-Found (suc n) i r e = elim (Option-cases (accept test (files i))) [
    | inl skip ↦
        let rest : find_from test files n (suc i) ≡ some r = ground arith in
        let found = find_from-Found n (suc i) r rest in
        record {
          first = omega (arith, found.first);
          last = omega (arith, found.last);
          stored = found.stored;
          passes = found.passes;
        }
    | inr (f, here) ↦
        let both = accept-some (files i) f here in
        let same : r ≡ (i, f) = ground arith in
        rw same
          (record { first = omega arith; last = omega arith; stored = both.0; passes = both.1 })
  ]

  accept-none_at :
      (n i j : ℕ)
      → find_from test files n i ≡ none
      → i ≤ j
      → j < i + n
      → accept test (files j) ≡ none
  unfolding find_from
  accept-none_at zero i j e le lt = absurd (omega arith)
  accept-none_at (suc n) i j e le lt = elim (Option-cases (accept test (files i))) [
    | inl skip ↦ elim (ℕ_discrete j i) [
      | yes same ↦ rw same skip
      | no other ↦ accept-none_at n (suc i) j (ground arith) (omega arith) (omega arith)
    ]
    | inr (f, here) ↦ absurd (ground arith)
  ]

-- A search depends only on what the slots have to offer.
find_from-eq :
    (test : FileEntry → Bool) (files files' : Cells (Option FileEntry)) (n i : ℕ)
    → ((j : ℕ) → accept test (files j) ≡ accept test (files' j))
    → find_from test files n i ≡ find_from test files' n i
unfolding find_from
find_from-eq test files files' zero i same = refl
find_from-eq test files files' (suc n) i same =
    ap₂
      (λ (o : Option FileEntry) (rest : Option (ℕ × FileEntry)). elim o [
        | none ↦ rest
        | some f ↦ some (i, f)
      ])
      (same i) (find_from-eq test files files' n (suc i) same)

pub free_from-none :
    (files : Cells (Option FileEntry)) (n i j : ℕ)
    → free_from files n i ≡ some j
    → (i ≤ j) × (j < i + n) × (files j ≡ none)
unfolding free_from
free_from-none files zero i j e = absurd (ground arith)
free_from-none files (suc n) i j e = elim (Option-cases (files i)) [
  | inl free ↦
      let same : i ≡ j = ground arith in (omega arith, omega arith, ap files (sym same) ∙ free)
  | inr (f, here) ↦
      let rest : free_from files n (suc i) ≡ some j = ground arith in
      let (first, last, free) = free_from-none files n (suc i) j rest in
      (omega arith, omega arith, free)
]

-- No two slots have the same name.
pub record IsUnique (files : Cells (Option FileEntry)) : Type 0 where
  pub unique :
      (i j : ℕ) (f g : FileEntry)
      → i < 128
      → j < 128
      → files i ≡ some f
      → files j ≡ some g
      → f.name ≡ g.name
      → i ≡ j

pub update_same :
    (files : Cells (Option FileEntry)) (i : ℕ) (o : Option FileEntry) → update files i o i ≡ o
update_same files i o = rw (==_refl i) refl

pub update_other :
    (files : Cells (Option FileEntry)) (i j : ℕ) (o : Option FileEntry)
    → j ≢ i
    → update files i o j ≡ files j
update_other files i j o ne = rw (==_ne j i ne) refl

-- Writing a slot keeps the names apart if no other slot has the new name.
pub update-IsUnique :
    (files : Cells (Option FileEntry)) (i : ℕ) (o : Option FileEntry)
    → IsUnique files
    → ((e : FileEntry)
        → o ≡ some e
        → (j : ℕ) (f : FileEntry) → j < 128
        → files j ≡ some f
        → f.name ≡ e.name
        → j ≡ i)
    → IsUnique (update files i o)
update-IsUnique files i o u alone = record { unique = go }
  where
    go :
        (j k : ℕ) (f g : FileEntry)
        → j < 128
        → k < 128
        → update files i o j ≡ some f
        → update files i o k ≡ some g
        → f.name ≡ g.name
        → j ≡ k
    go j k f g lj lk ej ek same = elim (ℕ_discrete j i) [
      | yes ji ↦ elim (ℕ_discrete k i) [
        | yes ki ↦ ji ∙ sym ki
        | no ki ↦
            let new : o ≡ some f = sym (ap (update files i o) ji ∙ update_same files i o) ∙ ej in
            ji ∙ sym (alone f new k g lk (sym (update_other files i k o ki) ∙ ek) (sym same))
      ]
      | no ji ↦ elim (ℕ_discrete k i) [
        | yes ki ↦
            let new : o ≡ some g = sym (ap (update files i o) ki ∙ update_same files i o) ∙ ek in
            alone g new j f lj (sym (update_other files i j o ji) ∙ ej) same ∙ sym ki
        | no ki ↦
            u.unique j k f g lj lk (sym (update_other files i j o ji) ∙ ej)
              (sym (update_other files i k o ki) ∙ ek) same
      ]
    ]

-- what a search for a name tells
pub record HasSlot (fs : Fs) (path : List ℕ) (i : ℕ) (f : FileEntry) : Type 0 where
  pub inside : i < 128
  pub stored : fs.files i ≡ some f
  pub name : f.name ≡ path

pub find-HasSlot :
    (fs : Fs) (path : List ℕ) (r : ℕ × FileEntry)
    → find (named path) fs ≡ some r
    → HasSlot fs path (r.0) (r.1)
find-HasSlot fs path r e =
    let found = find_from-Found (named path) fs.files 128 0 r e in
    record {
      inside = omega (arith, found.last);
      stored = found.stored;
      name = same_bytes-eq _ _ found.passes;
    }

pub find-absent :
    (fs : Fs) (path : List ℕ)
    → find (named path) fs ≡ none
    → (j : ℕ) (f : FileEntry) → j < 128
    → fs.files j ≡ some f
    → f.name ≢ path
find-absent fs path e j f lt stored name =
    let no_entry : accept (named path) (fs.files j) ≡ none =
      accept-none_at (named path) fs.files 128 0 j e (omega arith) (omega arith) in
    let passes : named path f ≡ true =
      ap (λ (n : List ℕ). same_bytes n path) name ∙ same_bytes_refl path in
    let entry : accept (named path) (fs.files j) ≡ some f =
      ap (accept (named path)) stored ∙ rw passes refl in
    ground (arith, no_entry, entry)

-- the test of the first search of `fs_read`
abbrev readable : List ℕ → FileEntry → Bool
readable path f = not f.is_dir && same_bytes f.name path

-- what `read_at` makes of a search
abbrev contents_of : Option (ℕ × FileEntry) → Option (List ℕ)
contents_of none = none
contents_of (some (i, f)) = some (f.contents)

-- A file that stands in a slot is what is read by its name.
pub read_at-stored :
    (fs : Fs) (path : List ℕ) (i : ℕ) (f : FileEntry)
    → IsUnique fs.files
    → HasSlot fs path i f
    → f.is_dir ≡ false
    → read_at path fs ≡ some (f.contents)
unfolding read_at
read_at-stored fs path i f u at file =
    let passes : readable path f ≡ true =
      (and-eq-true_iff _ _).1
        (ap not file, ap (λ (n : List ℕ). same_bytes n path) at.name ∙ same_bytes_refl path) in
    let entry : accept (readable path) (fs.files i) ≡ some f =
      ap (accept (readable path)) at.stored ∙ rw passes refl in
    elim (Option-cases (find (readable path) fs)) [
      | inl missing ↦
          let no_entry : accept (readable path) (fs.files i) ≡ none =
            accept-none_at (readable path) fs.files 128 0 i missing (omega arith)
              (omega (arith, at.inside)) in
          absurd (ground (arith, no_entry, entry))
      | inr (r, e) ↦
          let found = find_from-Found (readable path) fs.files 128 0 r e in
          let named_so : (r.1).name ≡ path =
            same_bytes-eq _ _ ((and-eq-true_iff _ _).0 found.passes).1 in
          let place : r.0 ≡ i =
            u.unique (r.0) i (r.1) f (omega (arith, found.last)) at.inside found.stored at.stored
              (named_so ∙ sym at.name) in
          let same : some (r.1) ≡ some f = sym found.stored ∙ ap fs.files place ∙ at.stored in
          ap contents_of e
          ∙ ap (λ (o : Option FileEntry). elim o [ none ↦ none | some g ↦ some (g.contents) ]) same
    ]

-- A directory is not read.
read_at-directory :
    (fs : Fs) (path : List ℕ) (i : ℕ) (f : FileEntry)
    → IsUnique fs.files
    → HasSlot fs path i f
    → f.is_dir ≡ true
    → read_at path fs ≡ none
unfolding read_at
read_at-directory fs path i f u at dir = elim (Option-cases (find (readable path) fs)) [
  | inl missing ↦ ap contents_of missing
  | inr (r, e) ↦
      let found = find_from-Found (readable path) fs.files 128 0 r e in
      let both : (not ((r.1).is_dir) ≡ true) × (same_bytes ((r.1).name) path ≡ true) =
        (and-eq-true_iff _ _).0 found.passes in
      let place : r.0 ≡ i =
        u.unique (r.0) i (r.1) f (omega (arith, found.last)) at.inside found.stored at.stored
          (same_bytes-eq _ _ both.1 ∙ sym at.name) in
      let same : some (r.1) ≡ some f = sym found.stored ∙ ap fs.files place ∙ at.stored in
      let kind : r.1 ≡ f = ground (arith, same) in
      absurd (ground (arith, ap (λ (g : FileEntry). g.is_dir) kind, both.0, dir))
]

-- what is read by a name that a slot has
abbrev pub readable_contents : FileEntry → Option (List ℕ)
readable_contents f = if f.is_dir then none else some (f.contents)

pub read_at-HasSlot :
    (fs : Fs) (path : List ℕ) (i : ℕ) (f : FileEntry)
    → IsUnique fs.files
    → HasSlot fs path i f
    → read_at path fs ≡ readable_contents f
read_at-HasSlot fs path i f u at = elim (Bool-cases f.is_dir) [
  | inl dir ↦ read_at-directory fs path i f u at dir ∙ rw dir refl
  | inr file ↦ read_at-stored fs path i f u at file ∙ rw file refl
]

-- Where no slot has the name, nothing is read.
pub read_at-absent :
    (fs : Fs) (path : List ℕ)
    → ((j : ℕ) (f : FileEntry) → j < 128 → fs.files j ≡ some f → f.name ≢ path)
    → read_at path fs ≡ none
unfolding read_at
read_at-absent fs path absent = elim (Option-cases (find (readable path) fs)) [
  | inl missing ↦ ap contents_of missing
  | inr (r, e) ↦
      let found = find_from-Found (readable path) fs.files 128 0 r e in
      absurd (
        absent (r.0) (r.1) (omega (arith, found.last)) found.stored
          (same_bytes-eq _ _ ((and-eq-true_iff _ _).0 found.passes).1))
]

-- A slot with another name may change without a difference to what is read.
pub read_at-update :
    (fs fs' : Fs) (path : List ℕ) (i : ℕ) (o : Option FileEntry)
    → fs'.files ≡ update fs.files i o
    → ((f : FileEntry) → fs.files i ≡ some f → f.name ≢ path)
    → ((f : FileEntry) → o ≡ some f → f.name ≢ path)
    → read_at path fs' ≡ read_at path fs
unfolding read_at
read_at-update fs fs' path i o written old new =
    ap contents_of (find_from-eq (readable path) fs'.files fs.files 128 0 same)
  where
    rejects :
        (p : Option FileEntry)
        → ((f : FileEntry) → p ≡ some f → f.name ≢ path)
        → accept (readable path) p ≡ none
    rejects none other = refl
    rejects (some f) other = elim (Bool-cases (readable path f)) [
      | inl t ↦ absurd (other f refl (same_bytes-eq _ _ ((and-eq-true_iff _ _).0 t).1))
      | inr t ↦ rw t refl
    ]

    same : (j : ℕ) → accept (readable path) (fs'.files j) ≡ accept (readable path) (fs.files j)
    same j =
        ap (λ (files : Cells (Option FileEntry)). accept (readable path) (files j)) written
        ∙ elim (ℕ_discrete j i) [
          | yes ji ↦
              ap (accept (readable path)) (ap (update fs.files i o) ji ∙ update_same fs.files i o)
              ∙ rejects o new
              ∙ sym (
                  ap (λ (k : ℕ). accept (readable path) (fs.files k)) ji ∙ rejects (fs.files i) old)
          | no ji ↦ ap (accept (readable path)) (update_other fs.files i j o ji)
        ]
