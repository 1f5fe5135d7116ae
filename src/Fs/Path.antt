-- ===== src/Fs/Path.antt =====
-- `fs_normalize_path` of kernel/src/fs.rs.
pub mod Resolve
use mathlib.Core.List.{reverse}
use latency_os.Prelude.{
  ℕ, zero, suc, ◌+◌, ◌-◌, Bool, true, false, ◌&&◌, ◌||◌, Option, none, some, List, [], ◌∷◌, ◌++◌,
  length, take, same_bytes, ltb, leb, ◌==◌, if◌then◌else◌,
}

pub data FsError : Type 0 where
  file_not_found disk_full file_too_large read_only_error invalid_name not_a_directory : FsError
  is_a_directory directory_not_empty already_exists : FsError

pub data NormalPath : Type 0 where
  normal : List ℕ → NormalPath
  refused : FsError → NormalPath

abbrev pub slash : ℕ
slash = b'/'

abbrev pub max_filename_len : ℕ
max_filename_len = 64

-- how many bytes a blank has that begins with these bytes, or 0: U+0009 to U+000D, U+0020, U+0085,
-- U+00A0, U+1680, U+2000 to U+200A, U+2028, U+2029, U+202F, U+205F and U+3000
unfoldable pub blank_length : ℕ → ℕ → ℕ → ℕ
blank_length a b c =
    if a == 0x20 || (leb 0x09 a && leb a 0x0d)
    then 1
    else if a == 0xc2 && (b == 0x85 || b == 0xa0)
    then 2
    else if a == 0xe1 && b == 0x9a && c == 0x80
        || a == 0xe2
          && b == 0x80
          && (leb 0x80 c && leb c 0x8a || c == 0xa8 || c == 0xa9 || c == 0xaf)
        || a == 0xe2 && b == 0x81 && c == 0x9f
        || a == 0xe3 && b == 0x80 && c == 0x80
    then 3
    else 0

-- the blank at the head of a text, read forwards, or backwards from the end
abbrev pub blank_at_start : List ℕ → ℕ
blank_at_start [] = 0
blank_at_start (a ∷ []) = blank_length a 0 0
blank_at_start (a ∷ b ∷ []) = blank_length a b 0
blank_at_start (a ∷ b ∷ c ∷ _) = blank_length a b c

abbrev pub blank_at_end : List ℕ → ℕ
blank_at_end [] = 0
blank_at_end (c ∷ []) = blank_length c 0 0
blank_at_end (c ∷ b ∷ []) = if blank_length b c 0 == 2 then 2 else blank_length c 0 0
blank_at_end (c ∷ b ∷ a ∷ _) =
    if blank_length a b c == 3 then 3 else if blank_length b c 0 == 2 then 2 else blank_length c 0 0

-- drops blanks while there are any; `skip` bytes of the present one are still to go
unfoldable pub drop_blanks : (List ℕ → ℕ) → ℕ → List ℕ → List ℕ
unfolding blank_length
drop_blanks blank skip [] = []
drop_blanks blank (suc skip) (a ∷ bs) = drop_blanks blank skip bs
drop_blanks blank zero (a ∷ bs) =
    let k = blank (a ∷ bs) in
    let rest = drop_blanks blank (k - 1) bs in if k == 0 then a ∷ bs else rest

-- `trim`
unfoldable pub trim : List ℕ → List ℕ
unfolding drop_blanks
trim s = reverse (drop_blanks blank_at_end 0 (reverse (drop_blanks blank_at_start 0 s)))

-- the pieces that `split('/')` gives
unfoldable pub split_slash : List ℕ → List (List ℕ)
split_slash [] = [] ∷ []
split_slash (b ∷ bs) = elim (split_slash bs) [
  | [] ↦ []
  | p ∷ ps ↦ if b == slash then [] ∷ p ∷ ps else (b ∷ p) ∷ ps
]

-- `rfind('/')`
unfoldable pub rfind_slash : List ℕ → Option ℕ
rfind_slash [] = none
rfind_slash (b ∷ bs) = elim (rfind_slash bs) [
  | some i ↦ some (suc i)
  | none ↦ if b == slash then some 0 else none
]

abbrev pub dot : List ℕ
dot = b'.' ∷ []

abbrev pub dot_dot : List ℕ
dot_dot = b'.' ∷ b'.' ∷ []

abbrev pub root : List ℕ
root = slash ∷ []

-- the path before `..`
unfoldable pub parent : List ℕ → List ℕ
unfolding rfind_slash
parent out =
    if ltb 1 (length out)
    then elim (rfind_slash out) [ none ↦ out | some pos ↦ if pos == 0 then root else take pos out ]
    else out

-- the path with one more piece
unfoldable pub append_part : List ℕ → List ℕ → NormalPath
append_part out part =
    let out' = if ltb 1 (length out) then out ++ slash ∷ [] else out in
    if ltb 1 (length out) && leb max_filename_len (length out + 1 + length part)
    then refused invalid_name
    else if leb max_filename_len (length out' + length part)
    then refused invalid_name
    else normal (out' ++ part)

-- one round of the loop over the pieces
unfoldable pub normalize_part : List ℕ → List ℕ → NormalPath
unfolding parent append_part
normalize_part out part =
    if same_bytes part [] || same_bytes part dot
    then normal out
    else if same_bytes part dot_dot
    then normal (parent out)
    else append_part out part

unfoldable pub normalize_parts : List ℕ → List (List ℕ) → NormalPath
unfolding normalize_part
normalize_parts out [] = normal out
normalize_parts out (part ∷ parts) = elim (normalize_part out part) [
  | refused e ↦ refused e
  | normal out' ↦ normalize_parts out' parts
]

-- the text that the loop takes to pieces: the input, put behind the current directory unless it
-- begins at the root
unfoldable pub absolute : List ℕ → List ℕ → List ℕ
absolute [] cwd = []
absolute (b ∷ bs) cwd =
    if b == slash
    then b ∷ bs
    else if same_bytes cwd [] || same_bytes cwd root
    then slash ∷ b ∷ bs
    else cwd ++ slash ∷ b ∷ bs

unfoldable pub normalize_path : List ℕ → List ℕ → NormalPath
unfolding trim split_slash normalize_parts absolute
normalize_path input cwd =
    let path = absolute (trim input) cwd in
    if same_bytes (trim input) []
    then refused invalid_name
    else if leb max_filename_len (length path)
    then refused invalid_name
    else normalize_parts root (split_slash path)
