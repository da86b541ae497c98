-- ===== src/Program/Asking.antt =====
-- The loop of read_or_create_listen_config that asks for an address and a port.
use mathlib.Core.Path.{subst}
use aone_webrtc_stt.Base.{
  All, ℤ, pos, IsDigit, is_digit, value_from, ℕ, ◌≡◌, refl, sym, ap, ◌∙◌, ◌≢◌, inl, inr, true,
  false, Option, none, some, List, [], ◌∷◌, ◌++◌, arith, Bool-cases, Option-cases, some_inj,
}
use aone_webrtc_stt.Program.Config.{
  take_digits, non_negative, is_numeric, is_valid_ip, ask_listen_config,
}
use aone_webrtc_stt.Program.Address.{IsPart, is_valid_ip-IsAddress}

take_digits_run : (cs rest : List ℕ) → All IsDigit cs → take_digits (cs ++ (b'.' ∷ rest)) ≡ cs
unfolding take_digits is_digit
take_digits_run [] rest h = refl
take_digits_run (c ∷ cs) rest (h, hs) = ground (arith, take_digits_run cs rest hs)

part_numeric :
    (cs rest : List ℕ) → IsPart cs → cs ≢ [] → (n : ℤ) × (is_numeric (cs ++ (b'.' ∷ rest)) ≡ some n)
unfolding is_numeric non_negative
part_numeric [] rest h some_digit = absurd (some_digit refl)
part_numeric (c ∷ cs) rest h some_digit = (
  pos (value_from 0 (c ∷ cs)),
  ground (arith, take_digits_run (c ∷ cs) rest h.digits, h.octet, h.digits.0),
)

-- An address is a port too, as std::from_chars stops behind its first part.
address_numeric : (ip : List ℕ) → is_valid_ip ip ≡ true → (n : ℤ) × (is_numeric ip ≡ some n)
address_numeric ip valid =
    let h = (is_valid_ip-IsAddress ip).0 valid in
    let (n, e) = part_numeric h.a _ h.a_part h.a_nonempty in (n, ap is_numeric h.written ∙ e)

-- The four turns of the loop.
ask_valid :
    (ip : List ℕ) (lines : List (List ℕ))
    → is_valid_ip ip ≡ true
    → ask_listen_config none (ip ∷ lines) ≡ ask_listen_config (some ip) lines
unfolding ask_listen_config
ask_valid ip lines e = rw e

ask_invalid :
    (ip : List ℕ) (lines : List (List ℕ))
    → is_valid_ip ip ≡ false
    → ask_listen_config none (ip ∷ lines) ≡ ask_listen_config none lines
unfolding ask_listen_config
ask_invalid ip lines e = rw e

ask_numeric :
    (ip line : List ℕ) (lines : List (List ℕ)) (port : ℤ)
    → is_numeric line ≡ some port
    → ask_listen_config (some ip) (line ∷ lines) ≡ some (ip, port)
unfolding ask_listen_config
ask_numeric ip line lines port e = rw (e, ask_listen_config)

ask_again :
    (ip line : List ℕ) (lines : List (List ℕ))
    → is_numeric line ≡ none
    → ask_listen_config (some ip) (line ∷ lines) ≡ ask_listen_config none lines
unfolding ask_listen_config
ask_again ip line lines e = rw (e, ask_listen_config)

abbrev pub IsGiven : Option (List ℕ) → Type 0
IsGiven none = Unit
IsGiven (some ip) = is_valid_ip ip ≡ true

-- The lines with the address that was given before them.
abbrev with_given : Option (List ℕ) → List (List ℕ) → List (List ℕ)
with_given none lines = lines
with_given (some ip) lines = ip ∷ lines

-- An answer is a valid address that was typed, and the number on the line behind it.
pub record IsAnswer (lines : List (List ℕ)) (r : List ℕ × ℤ) : Type 0 where
  pub before : List (List ℕ)
  pub line : List ℕ
  pub after : List (List ℕ)
  pub typed : lines ≡ before ++ (r.0 ∷ line ∷ after)
  pub valid : is_valid_ip r.0 ≡ true
  pub numeric : is_numeric line ≡ some r.1

later_line :
    (b : List ℕ) (lines : List (List ℕ)) (r : List ℕ × ℤ)
    → IsAnswer lines r
    → IsAnswer (b ∷ lines) r
later_line b lines r a = record {
  before = b ∷ a.before;
  line = a.line;
  after = a.after;
  typed = ap (◌∷◌ b) a.typed;
  valid = a.valid;
  numeric = a.numeric;
}

pub answered :
    (o : Option (List ℕ)) (lines : List (List ℕ)) (r : List ℕ × ℤ)
    → IsGiven o
    → ask_listen_config o lines ≡ some r
    → IsAnswer (with_given o lines) r
unfolding ask_listen_config
answered o [] r given e = cc
answered none (line ∷ lines) r given e = elim (Bool-cases (is_valid_ip line)) [
  | inl valid ↦ answered (some line) lines r valid (sym (ask_valid line lines valid) ∙ e)
  | inr wrong ↦
      later_line line lines r (answered none lines r tt (sym (ask_invalid line lines wrong) ∙ e))
]
answered (some ip) (line ∷ lines) r given e = elim (Option-cases (is_numeric line)) [
  | inl wrong ↦
      let a = answered none lines r tt (sym (ask_again ip line lines wrong) ∙ e) in
      later_line ip (line ∷ lines) r (later_line line lines r a)
  | inr (port, numeric) ↦
      subst (IsAnswer (ip ∷ line ∷ lines))
        (some_inj (sym (ask_numeric ip line lines port numeric) ∙ e))
        (record {
          before = [];
          line = line;
          after = lines;
          typed = refl;
          valid = given;
          numeric = numeric;
        })
]

abbrev Ends : Option (List ℕ) → List (List ℕ) → Type 0
Ends o lines = (r : List ℕ × ℤ) × (ask_listen_config o lines ≡ some r)

ends :
    (o : Option (List ℕ)) (before : List (List ℕ)) (ip line : List ℕ) (after : List (List ℕ))
    (port : ℤ)
    → is_valid_ip ip ≡ true
    → is_numeric line ≡ some port
    → Ends o (before ++ (ip ∷ line ∷ after))
ends none [] ip line after port valid numeric =
    ((ip, port), ask_valid ip (line ∷ after) valid ∙ ask_numeric ip line after port numeric)
ends (some first) [] ip line after port valid numeric =
    let (n, e) = address_numeric ip valid in ((first, n), ask_numeric first ip (line ∷ after) n e)
ends none (b ∷ before) ip line after port valid numeric =
    let lines = before ++ (ip ∷ line ∷ after) in
    elim (Bool-cases (is_valid_ip b)) [
      | inl e ↦
          let (r, done) = ends (some b) before ip line after port valid numeric in
          (r, ask_valid b lines e ∙ done)
      | inr e ↦
          let (r, done) = ends none before ip line after port valid numeric in
          (r, ask_invalid b lines e ∙ done)
    ]
ends (some first) (b ∷ before) ip line after port valid numeric =
    let lines = before ++ (ip ∷ line ∷ after) in
    elim (Option-cases (is_numeric b)) [
      | inl e ↦
          let (r, done) = ends none before ip line after port valid numeric in
          (r, ask_again first b lines e ∙ done)
      | inr (n, e) ↦ ((first, n), ask_numeric first b lines n e)
    ]

-- The loop that asks ends as soon as the operator has typed a valid address and, on the next line, a
-- number, whatever was typed before; it ends with a valid address that was typed, and the number on the
-- line behind it.
pub ask_listen_config-ends :
    (before : List (List ℕ)) (ip line : List ℕ) (after : List (List ℕ)) (port : ℤ)
    → is_valid_ip ip ≡ true
    → is_numeric line ≡ some port
    → let lines = before ++ (ip ∷ line ∷ after) in
      (r : List ℕ × ℤ) × (ask_listen_config none lines ≡ some r) × IsAnswer lines r
ask_listen_config-ends before ip line after port valid numeric =
    let (r, e) = ends none before ip line after port valid numeric in
    (r, e, answered none (before ++ (ip ∷ line ∷ after)) r tt e)
