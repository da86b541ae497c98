-- ===== src/Program/Again.antt =====
-- A start of the program, and the next: read_or_create_listen_config of RTCServerNodeExec.cc.
use mathlib.Core.Path.{subst}
use aone_webrtc_stt.Base.{
  ℤ, IsInt32, value_from, ℕ, zero, suc, ◌^◌, ◌≡◌, refl, sym, ap, ◌∙◌, inl, inr, Bool, true, false,
  Option, none, some, List, [], ◌∷◌, arith, ltb, ◌==◌, if◌then◌else◌, Bool-cases, Option-cases,
  bind-some, some_inj,
}
use aone_webrtc_stt.Program.Config.{
  negated, take_digits, non_negative, negative, is_numeric, read_listen_config, ask_listen_config,
  config_text, create_listen_config, read_or_create_listen_config, negated,
}
use aone_webrtc_stt.Program.Reading.{read_listen_config-config_text}
use aone_webrtc_stt.Program.Asking.{answered}

non_negative-IsInt32 : (cs : List ℕ) (n : ℤ) → non_negative cs ≡ some n → IsInt32 n
unfolding non_negative
non_negative-IsInt32 [] n e = cc
non_negative-IsInt32 (c ∷ cs) n e = elim (Bool-cases (ltb (value_from 0 (c ∷ cs)) (2 ^ 31))) [
  | inl small ↦ subst IsInt32 (some_inj (rw small at e)) (ground arith)
  | inr large ↦ cc (rw large at e)
]

negated-IsInt32 : (v : ℕ) (n : ℤ) → negated v ≡ some n → IsInt32 n
negated-IsInt32 zero n e = subst IsInt32 (some_inj e) (ground arith)
negated-IsInt32 (suc v) n e = elim (Bool-cases (ltb v (2 ^ 31))) [
  | inl small ↦ subst IsInt32 (some_inj (rw small at e)) (ground arith)
  | inr large ↦ cc (rw large at e)
]

negative-IsInt32 : (cs : List ℕ) (n : ℤ) → negative cs ≡ some n → IsInt32 n
unfolding negative
negative-IsInt32 [] n e = cc
negative-IsInt32 (c ∷ cs) n e = negated-IsInt32 (value_from 0 (c ∷ cs)) n e

is_numeric-IsInt32 : (cs : List ℕ) (n : ℤ) → is_numeric cs ≡ some n → IsInt32 n
unfolding is_numeric
is_numeric-IsInt32 [] n e = cc
is_numeric-IsInt32 (c ∷ cs) n e = elim (Bool-cases (c == b'-')) [
  | inl minus ↦ negative-IsInt32 (take_digits cs) n (rw minus at e)
  | inr digits ↦ non_negative-IsInt32 (take_digits (c ∷ cs)) n (rw digits at e)
]

-- A configuration and the file that is left, taken apart.
abbrev Left : Type 0
Left = (List ℕ × ℤ) × Option (List ℕ)

same_config :
    (r config : List ℕ × ℤ) (file : Option (List ℕ)) (content : List ℕ)
    → ◌≡◌ {A = Option Left} (some (r, file)) (some (config, some content))
    → (r ≡ config) × (file ≡ some content)
same_config r config file content e =
    let p = some_inj e in (ap (λ (q : Left). q.0) p, ap (λ (q : Left). q.1) p)

-- What a start that asks leaves.
file_reads :
    (writable : Bool) (r config : List ℕ × ℤ) (content : List ℕ)
    → read_listen_config (config_text r.0 r.1) ≡ some r
    → r ≡ config
    → (if writable then some (config_text r.0 r.1) else none) ≡ some content
    → read_listen_config content ≡ some config
file_reads true r config content reads same text =
    ap read_listen_config (sym (some_inj text)) ∙ reads ∙ ap some same
file_reads false r config content reads same text = cc

created_reads :
    (writable : Bool) (lines : List (List ℕ)) (config : List ℕ × ℤ) (content : List ℕ)
    → create_listen_config writable none lines ≡ some (config, some content)
    → read_listen_config content ≡ some config
unfolding create_listen_config
created_reads writable lines config content e =
    let (r, asked, e') = bind-some (ask_listen_config none lines) _ e in
    let a = answered none lines r tt asked in
    let (same, text) = same_config r config _ content e' in
    file_reads writable r config content
      (read_listen_config-config_text r.0 r.1 a.valid (is_numeric-IsInt32 a.line r.1 a.numeric))
      same text

read_leaves :
    (writable : Bool) (lines : List (List ℕ)) (config : List ℕ × ℤ) (content : List ℕ)
    → read_listen_config content ≡ some config
    → read_or_create_listen_config writable (some content) lines ≡ some (config, some content)
unfolding read_or_create_listen_config
read_leaves writable lines config content e = rw (e, read_or_create_listen_config)

read_creates :
    (writable : Bool) (lines : List (List ℕ)) (found : List ℕ)
    → read_listen_config found ≡ none
    → read_or_create_listen_config writable (some found) lines
      ≡ create_listen_config writable none lines
unfolding read_or_create_listen_config
read_creates writable lines found e = rw (e, read_or_create_listen_config)

nothing_creates :
    (writable : Bool) (lines : List (List ℕ))
    → read_or_create_listen_config writable none lines ≡ create_listen_config writable none lines
unfolding read_or_create_listen_config
nothing_creates writable lines = refl

-- Where a start ends with a file, the next start reads the same address and port from it, asks
-- nothing, and leaves it as it is.
pub read_or_create_twice :
    (writable : Bool) (file : Option (List ℕ)) (lines lines' : List (List ℕ)) (config : List ℕ × ℤ)
    (content : List ℕ)
    → read_or_create_listen_config writable file lines ≡ some (config, some content)
    → read_or_create_listen_config writable (some content) lines' ≡ some (config, some content)
read_or_create_twice writable none lines lines' config content e =
    read_leaves writable lines' config content
      (created_reads writable lines config content (sym (nothing_creates writable lines) ∙ e))
read_or_create_twice writable (some found) lines lines' config content e =
    read_leaves writable lines' config content (elim (Option-cases (read_listen_config found)) [
      | inl bad ↦
          created_reads writable lines config content
            (sym (read_creates writable lines found bad) ∙ e)
      | inr (c, good) ↦
          let (same, text) =
            same_config c config (some found) content
              (sym (read_leaves writable lines c found good) ∙ e) in
          ap read_listen_config (sym (some_inj text)) ∙ good ∙ ap some same
    ])
