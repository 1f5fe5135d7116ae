-- ===== src/Fs/Path/Resolve.antt =====
-- What `fs_normalize_path` of kernel/src/fs.rs computes: the pieces of the path, with the dots
-- resolved on a stack.
use mathlib.Core.List.{append_assoc}
use latency_os.Prelude.{
  subst, ℕ, ◌+◌, ◌≤◌, ◌<◌, ◌≡◌, refl, sym, ap, ◌∙◌, arith, Bool, true, false, ◌||◌, none, some,
  List, [], ◌∷◌, ◌++◌, length, same_bytes, Bool-cases, inl, inr, leb, ltb, if◌then◌else◌, ◌==◌,
  length-append, take-append,
}
use latency_os.Fs.Path.{
  NormalPath, normal, refused, slash, dot, dot_dot, root, split_slash, rfind_slash, parent,
  append_part, normalize_part, normalize_parts, normalize_path, absolute, trim,
}

-- The stack of pieces, the last one first, written out as a path.
abbrev trunk : List (List ℕ) → List ℕ
trunk [] = []
trunk (c ∷ cs) = trunk cs ++ slash ∷ c

abbrev pub render : List (List ℕ) → List ℕ
render [] = root
render (c ∷ cs) = trunk (c ∷ cs)

abbrev above : List (List ℕ) → List (List ℕ)
above [] = []
above (c ∷ cs) = cs

-- What a piece does to the stack: nothing, go up, or go down.
abbrev pub resolve_part : List ℕ → List (List ℕ) → List (List ℕ)
resolve_part part stack =
    if same_bytes part [] || same_bytes part dot
    then stack
    else if same_bytes part dot_dot
    then above stack
    else part ∷ stack

abbrev pub resolve : List (List ℕ) → List (List ℕ) → List (List ℕ)
resolve [] stack = stack
resolve (part ∷ parts) stack = resolve parts (resolve_part part stack)

-- a name: no slash, not empty and no dots
pub record IsPiece (c : List ℕ) : Type 0 where
  pub clear : rfind_slash c ≡ none
  pub filled : same_bytes c [] ≡ false
  pub not_dot : same_bytes c dot ≡ false
  pub not_dot_dot : same_bytes c dot_dot ≡ false

abbrev pub All : (List ℕ → Type 0) → List (List ℕ) → Type 0
All P [] = Unit
All P (c ∷ cs) = P c × All P cs

abbrev IsClear : List ℕ → Type 0
IsClear c = rfind_slash c ≡ none

split_slash-IsClear : (s : List ℕ) → All IsClear (split_slash s)
unfolding split_slash rfind_slash
split_slash-IsClear [] = (refl, tt)
split_slash-IsClear (b ∷ bs) = go (split_slash bs) (split_slash-IsClear bs)
  where
    go :
        (parts : List (List ℕ))
        → All IsClear parts
        → All IsClear
            (elim parts [ [] ↦ [] | p ∷ ps ↦ if b == slash then [] ∷ p ∷ ps else (b ∷ p) ∷ ps ])
    go [] all = tt
    go (p ∷ ps) (clear, all) = elim (Bool-cases (b == slash)) [
      | inl t ↦ rw t (refl, (clear, all))
      | inr f ↦ rw f ((rw (clear, f) refl), all)
    ]

filled-length : (c : List ℕ) → same_bytes c [] ≡ false → 0 < length c
unfolding same_bytes
filled-length [] f = absurd (ground arith)
filled-length (b ∷ c) f = omega arith

-- The last slash is the one in front of a piece.
rfind_slash-append :
    (s c : List ℕ) → rfind_slash c ≡ none → rfind_slash (s ++ slash ∷ c) ≡ some (length s)
unfolding rfind_slash
rfind_slash-append [] c clear = rw clear refl
rfind_slash-append (b ∷ s) c clear = rw (rfind_slash-append s c clear) refl

length-trunk : (c : List ℕ) (cs : List (List ℕ)) → IsPiece c → 1 < length (trunk (c ∷ cs))
length-trunk c cs p = omega (arith, length-append (trunk cs) (slash ∷ c), filled-length c p.filled)

parent-render :
    (stack : List (List ℕ)) → All IsPiece stack → parent (render stack) ≡ render (above stack)
unfolding parent
parent-render [] all = refl
parent-render (c ∷ []) (p, all) =
    let long : ltb 1 (length (slash ∷ c)) ≡ true = ground (arith, length-trunk c [] p) in
    rw (long, rfind_slash-append [] c p.clear) refl
parent-render (c ∷ d ∷ cs) (p, (q, all)) =
    let base : List ℕ = trunk (d ∷ cs) in
    let long : ltb 1 (length (base ++ slash ∷ c)) ≡ true =
      ground (arith, length-trunk c (d ∷ cs) p) in
    let deep : (length base == 0) ≡ false = ground (arith, length-trunk d cs q) in
    rw (long, rfind_slash-append base c p.clear, deep) (take-append base (slash ∷ c))

append_part-render :
    (stack : List (List ℕ)) (part : List ℕ) {out : List ℕ}
    → All IsPiece stack
    → append_part (render stack) part ≡ normal out
    → (out ≡ render (part ∷ stack)) × (length out < 64)
unfolding append_part
append_part-render [] part {out} all done =
    let same : slash ∷ part ≡ out = ground arith in (sym same, ground arith)
append_part-render (c ∷ cs) part {out} (p, all) done =
    let base : List ℕ = trunk (c ∷ cs) in
    let long : ltb 1 (length base) ≡ true = ground (arith, length-trunk c cs p) in
    let regroup : (base ++ slash ∷ []) ++ part ≡ base ++ slash ∷ part =
      append_assoc base (slash ∷ []) part in
    let same : (base ++ slash ∷ []) ++ part ≡ out = ground (arith, long) in
    let sizes : length (base ++ slash ∷ []) + length part < 64 = ground (arith, long) in
    (
      sym same ∙ regroup,
      omega (arith, ap (λ (s : List ℕ). length s) same, length-append (base ++ slash ∷ []) part),
    )

or-false : (a b : Bool) → (a || b) ≡ false → (a ≡ false) × (b ≡ false)
or-false true b h = absurd (ground arith)
or-false false b h = (refl, h)

All-above : (stack : List (List ℕ)) → All IsPiece stack → All IsPiece (above stack)
All-above [] all = tt
All-above (c ∷ cs) (p, all) = all

length-above :
    (stack : List (List ℕ))
    → All IsPiece stack
    → length (render (above stack)) ≤ length (render stack)
length-above [] all = omega arith
length-above (c ∷ []) (p, all) = omega (arith, length-trunk c [] p)
length-above (c ∷ d ∷ cs) (p, all) = omega (arith, length-append (trunk (d ∷ cs)) (slash ∷ c))

-- One round of the loop keeps the path the writing of the stack.
normalize_part-render :
    (stack : List (List ℕ)) (part : List ℕ) {out : List ℕ}
    → All IsPiece stack
    → IsClear part
    → length (render stack) < 64
    → normalize_part (render stack) part ≡ normal out
    → (out ≡ render (resolve_part part stack))
      × All IsPiece (resolve_part part stack)
      × (length out < 64)
unfolding normalize_part
normalize_part-render stack part {out} all clear short done =
    elim (Bool-cases (same_bytes part [] || same_bytes part dot)) [
      | inl skip ↦
          let same : render stack ≡ out = ground (arith, skip, done) in
          rw skip (sym same, all, ground (arith, same, short))
      | inr keep ↦ rw keep (elim (Bool-cases (same_bytes part dot_dot)) [
        | inl up ↦
            let same : parent (render stack) ≡ out = ground (arith, keep, up, done) in
            let out_above : out ≡ render (above stack) = sym same ∙ parent-render stack all in
            rw up (
              out_above,
              All-above stack all,
              omega (arith, ap (λ (s : List ℕ). length s) out_above, length-above stack all, short),
            )
        | inr down ↦
            let pushed : append_part (render stack) part ≡ normal out =
              ground (arith, keep, down, done) in
            let (same, fits) = append_part-render stack part all pushed in
            let piece : IsPiece part = record {
              clear = clear;
              filled = (or-false _ _ keep).0;
              not_dot = (or-false _ _ keep).1;
              not_dot_dot = down;
            } in
            rw down (same, (piece, all), fits)
      ])
    ]

normalize_parts-render :
    (parts : List (List ℕ)) (stack : List (List ℕ)) {out : List ℕ}
    → All IsClear parts
    → All IsPiece stack
    → length (render stack) < 64
    → normalize_parts (render stack) parts ≡ normal out
    → (out ≡ render (resolve parts stack)) × All IsPiece (resolve parts stack) × (length out < 64)
unfolding normalize_parts
normalize_parts-render [] stack {out} clear all short done =
    let same : render stack ≡ out = ground arith in (sym same, all, ground (arith, same))
normalize_parts-render (part ∷ parts) stack {out} (clear, rest) all short done =
    go (normalize_part (render stack) part) refl done
      λ stack' all' short' done'. normalize_parts-render parts stack' rest all' short' done'
  where
    after : NormalPath → NormalPath
    after n = elim n [ refused e ↦ refused e | normal next ↦ normalize_parts next parts ]

    go :
        (n : NormalPath)
        → normalize_part (render stack) part ≡ n
        → after n ≡ normal out
        → ((stack' : List (List ℕ))
            → All IsPiece stack'
            → length (render stack') < 64
            → normalize_parts (render stack') parts ≡ normal out
            → (out ≡ render (resolve parts stack'))
              × All IsPiece (resolve parts stack')
              × (length out < 64))
        → (out ≡ render (resolve (part ∷ parts) stack))
          × All IsPiece (resolve (part ∷ parts) stack)
          × (length out < 64)
    go (refused e) p q rec = absurd (ground (arith, q))
    go (normal next) p q rec =
        let (same, all', short') = normalize_part-render stack part all clear short p in
        rec (resolve_part part stack) all' (subst (λ (s : List ℕ). length s < 64) same short')
          (sym (ap (λ (s : List ℕ). normalize_parts s parts) same) ∙ q)

-- A path that can be normalized comes out as the pieces of the text, put behind the current
-- directory unless it begins at the root, with the dots resolved on a stack: each piece that is left
-- is a name, with one slash in front, or the path is the root; and it has less than 64 bytes.
pub normalize_path-resolve :
    (input cwd : List ℕ) {out : List ℕ}
    → normalize_path input cwd ≡ normal out
    → (out ≡ render (resolve (split_slash (absolute (trim input) cwd)) []))
      × All IsPiece (resolve (split_slash (absolute (trim input) cwd)) [])
      × (length out < 64)
unfolding normalize_path
normalize_path-resolve input cwd {out} done =
    let path : List ℕ = absolute (trim input) cwd in
    elim (Bool-cases (same_bytes (trim input) [])) [
      | inl empty ↦ absurd (ground (arith, empty))
      | inr filled ↦ elim (Bool-cases (leb 64 (length path))) [
        | inl long ↦ absurd (ground (arith, filled, long))
        | inr short ↦
            normalize_parts-render (split_slash path) [] (split_slash-IsClear path) tt (omega arith)
              (ground (arith, filled, short))
      ]
    ]
