-- ===== src/Utils/Files.antt =====
-- utils/RTCUtils.cc (dumpFile, removeDumpFile, removeDumpFiles) and AMessageWaitImpl.cc. The regular
-- files of the directory are a list of names and contents, with one entry for each name; a name is its
-- characters. A file that cannot be opened or removed, and a write that is cut short, are left out.
use aone_webrtc_stt.Base.{
  ℕ, ◌≡◌, refl, sym, ap, ◌∙◌, ◌↔◌, ◌⊎◌, inl, inr, Bool, true, false, Option, none, some, List, [],
  ◌∷◌, ◌++◌, arith, ◌==◌, if◌then◌else◌, Bool-cases, Status, ok, invalid_operation,
}

unfoldable pub same_name : List ℕ → List ℕ → Bool
same_name [] [] = true
same_name [] (d ∷ ds) = false
same_name (c ∷ cs) [] = false
same_name (c ∷ cs) (d ∷ ds) = if c == d then same_name cs ds else false

-- filename.rfind(fname, 0) == 0.
unfoldable pub starts_with : List ℕ → List ℕ → Bool
starts_with [] name = true
starts_with (c ∷ cs) [] = false
starts_with (c ∷ cs) (d ∷ ds) = if c == d then starts_with cs ds else false

abbrev pub Files : Type 0
Files = List (List ℕ × List ℕ)

unfoldable pub content : List ℕ → Files → Option (List ℕ)
content name [] = none
content name ((n, bytes) ∷ files) = if same_name n name then some bytes else content name files

-- Mode "ab": behind what the file holds, or a new file.
unfoldable pub dump_file : List ℕ → List ℕ → Files → Files
dump_file name buf [] = (name, buf) ∷ []
dump_file name buf ((n, bytes) ∷ files) =
    if same_name n name then (n, bytes ++ buf) ∷ files else (n, bytes) ∷ dump_file name buf files

unfoldable pub remove_dump_file : List ℕ → Files → Files
remove_dump_file name [] = []
remove_dump_file name ((n, bytes) ∷ files) =
    if same_name n name then files else (n, bytes) ∷ remove_dump_file name files

unfoldable pub remove_dump_files : List ℕ → Files → Files
remove_dump_files fname [] = []
remove_dump_files fname ((n, bytes) ∷ files) =
    let rest = remove_dump_files fname files in
    if starts_with fname n then rest else (n, bytes) ∷ rest

-- PostAndAWaitResponse: the status of postAndAwaitResponse, and the one in the response, if any.
unfoldable pub post_and_await_response : Status → Option Status → Status
post_and_await_response invalid_operation response = invalid_operation
post_and_await_response ok none = ok
post_and_await_response ok (some err) = err

same_name-≡ : (m n : List ℕ) → same_name m n ≡ true → m ≡ n
unfolding same_name
same_name-≡ [] [] e = refl
same_name-≡ [] (d ∷ n) e = cc
same_name-≡ (c ∷ m) [] e = cc
same_name-≡ (c ∷ m) (d ∷ n) e = ground (arith, same_name-≡ m n)

same_left : (m n o : List ℕ) → same_name m n ≡ true → same_name m o ≡ same_name n o
same_left m n o e = ap (λ x. same_name x o) (same_name-≡ m n e)

same_right : (m n o : List ℕ) → same_name n o ≡ true → same_name m o ≡ same_name m n
same_right m n o e = ap (same_name m) (sym (same_name-≡ n o e))

-- A file of the directory, and a name that begins with a text.
abbrev pub Has : Files → List ℕ → List ℕ → Type 0
Has [] name bytes = ⊥
Has ((n, b) ∷ files) name bytes = ((n ≡ name) × (b ≡ bytes)) ⊎ Has files name bytes

abbrev pub Begins : List ℕ → List ℕ → Type 0
Begins fname name = (rest : List ℕ) × (name ≡ fname ++ rest)

starts_with-Begins : (fname name : List ℕ) → starts_with fname name ≡ true → Begins fname name
unfolding starts_with
starts_with-Begins [] name e = (name, refl)
starts_with-Begins (c ∷ cs) [] e = cc
starts_with-Begins (c ∷ cs) (d ∷ ds) e = elim (Bool-cases (c == d)) [
  | inr other ↦ let e' = rw other at e in cc
  | inl same ↦
      let e' = rw same at e in
      let (rest, written) = starts_with-Begins cs ds e' in
      let first : d ≡ c = ground (arith, same) in
      (rest, ap (λ x. x ∷ ds) first ∙ ap (◌∷◌ c) written)
]

Begins-starts_with : (fname rest : List ℕ) → starts_with fname (fname ++ rest) ≡ true
unfolding starts_with
Begins-starts_with [] rest = refl
Begins-starts_with (c ∷ cs) rest = ground (arith, Begins-starts_with cs rest)

kept :
    (fname name bytes : List ℕ) (files : Files)
    → Has (remove_dump_files fname files) name bytes
    → Has files name bytes × ¬ Begins fname name
unfolding remove_dump_files
kept fname name bytes [] h = absurd h
kept fname name bytes ((n, b) ∷ files) h = elim (Bool-cases (starts_with fname n)) [
  | inl gone ↦ let (there, stays) = kept fname name bytes files (rw gone at h) in (inr there, stays)
  | inr other ↦ elim (rw other at h) [
    | inl (same, content) ↦ (
      inl (same, content),
      λ (rest, written).
          cc (sym other ∙ ap (starts_with fname) (same ∙ written) ∙ Begins-starts_with fname rest),
    )
    | inr later ↦ let (there, stays) = kept fname name bytes files later in (inr there, stays)
  ]
]

keeps :
    (fname name bytes : List ℕ) (files : Files)
    → Has files name bytes
    → ¬ Begins fname name
    → Has (remove_dump_files fname files) name bytes
unfolding remove_dump_files
keeps fname name bytes [] h other = absurd h
keeps fname name bytes ((n, b) ∷ files) h other = elim (Bool-cases (starts_with fname n)) [
  | inl gone ↦ elim h [
    | inl (same, content) ↦
        absurd (other (starts_with-Begins fname name (sym (ap (starts_with fname) same) ∙ gone)))
    | inr later ↦ rw gone (keeps fname name bytes files later other)
  ]
  | inr stays ↦ elim h [
    | inl here ↦ rw stays (inl here)
    | inr later ↦ rw stays (inr (keeps fname name bytes files later other))
  ]
]

-- Behind removeDumpFiles, the directory has the files that it had, each with its content, but for those
-- whose name begins with the text.
pub remove_dump_files-Has :
    (fname name bytes : List ℕ) (files : Files)
    → Has (remove_dump_files fname files) name bytes ↔ (Has files name bytes × ¬ Begins fname name)
remove_dump_files-Has fname name bytes files =
    (kept fname name bytes files, λ (h, other). keeps fname name bytes files h other)

-- Behind dumpFile, the file holds what it held, if there was one, and the bytes behind it, and every
-- other is as it was.
content-dump_file :
    (name buf other : List ℕ) (files : Files)
    → content other (dump_file name buf files) ≡ (
        if same_name name other
        then some ((elim (content other files) [ some bytes ↦ bytes | none ↦ [] ]) ++ buf)
        else content other files)
unfolding content dump_file
content-dump_file name buf other [] = ground (arith)
content-dump_file name buf other ((n, bytes) ∷ files) =
    ground (
      arith,
      content-dump_file name buf other files,
      same_left n name other,
      same_right n name other,
    )
