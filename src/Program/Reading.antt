-- ===== src/Program/Reading.antt =====
-- What the program reads back from the file that it wrote.
use aone_webrtc_stt.Base.{
  All, ℤ, pos, negsuc, IsInt32, IsDigit, decimal-IsDigit, decimal_nonempty, value_from-decimal,
  decimal, is_digit, value_from, ℕ, suc, ◌+◌, ◌-◌, ◌*◌, ◌^◌, ◌<◌, ◌≡◌, refl, ap, ◌∙◌, ◌≢◌, true,
  some, List, [], ◌∷◌, ◌++◌, arith, lt→ltb,
}
use aone_webrtc_stt.Program.Config.{
  take_digits, non_negative, negative, is_numeric, is_valid_ip_from, is_valid_ip, getline, show_int,
  read_listen_config, config_text,
}

take_digits-All : (cs : List ℕ) → All IsDigit cs → take_digits cs ≡ cs
unfolding take_digits is_digit
take_digits-All [] _ = refl
take_digits-All (c ∷ cs) (h, hs) = ground (arith, take_digits-All cs hs)

-- A line without a line feed is read back.
getline_lem :
    (line rest : List ℕ) → All (λ c. c ≢ 10) line → getline (line ++ (10 ∷ rest)) ≡ (line, rest)
unfolding getline
getline_lem [] rest _ = refl
getline_lem (c ∷ cs) rest (h, hs) = ground (arith, getline_lem cs rest hs)

valid_ip_line :
    (ip : List ℕ) (dots num count : ℕ)
    → is_valid_ip_from dots num count ip ≡ true
    → All (λ c. c ≢ 10) ip
unfolding is_valid_ip_from is_digit
valid_ip_line [] dots num count e = tt
valid_ip_line (c ∷ cs) dots num count e = ground (
  arith,
  valid_ip_line cs (suc dots) 0 0,
  valid_ip_line cs dots (num * 10 + (c - b'0')) (suc count),
)

digits_line : (cs : List ℕ) → All IsDigit cs → All (λ c. c ≢ 10) cs
digits_line [] _ = tt
digits_line (c ∷ cs) (h, hs) = (λ e. omega arith, digits_line cs hs)

show_int_line : (x : ℤ) → All (λ c. c ≢ 10) (show_int x)
unfolding show_int
show_int_line (pos n) = digits_line (decimal n) (decimal-IsDigit n)
show_int_line (negsuc n) =
    (λ e. omega arith, digits_line (decimal (suc n)) (decimal-IsDigit (suc n)))

numeric_digits :
    (cs : List ℕ)
    → All IsDigit cs
    → cs ≢ []
    → value_from 0 cs < 2 ^ 31
    → is_numeric cs ≡ some (pos (value_from 0 cs))
unfolding is_numeric non_negative
numeric_digits [] _ some_digit small = absurd (some_digit refl)
numeric_digits (c ∷ cs) digits some_digit small = ground (arith, take_digits-All (c ∷ cs) digits)

numeric_negative :
    (cs : List ℕ) (n : ℕ)
    → All IsDigit cs
    → cs ≢ []
    → value_from 0 cs ≡ suc n
    → n < 2 ^ 31
    → is_numeric (b'-' ∷ cs) ≡ some (negsuc n)
unfolding is_numeric negative
numeric_negative [] n _ some_digit v small = absurd (some_digit refl)
numeric_negative (c ∷ cs) n digits some_digit v small =
    rw (take_digits-All (c ∷ cs) digits, v, lt→ltb n (2 ^ 31) small)

-- An int that operator<< wrote is read back by std::from_chars.
pub is_numeric-show_int : (x : ℤ) → IsInt32 x → is_numeric (show_int x) ≡ some x
unfolding show_int
is_numeric-show_int (pos n) small =
    let value = value_from-decimal n in
    numeric_digits (decimal n) (decimal-IsDigit n) (decimal_nonempty n) (ground (arith, value))
    ∙ ap (λ v. some (pos v)) value
is_numeric-show_int (negsuc n) small =
    numeric_negative (decimal (suc n)) n (decimal-IsDigit (suc n)) (decimal_nonempty (suc n))
      (value_from-decimal (suc n)) (ground arith)

-- The file that the program writes for a valid address and an int as the port holds them: both are
-- read back at the next start, so the operator is not asked again.
pub read_listen_config-config_text :
    (ip : List ℕ) (port : ℤ)
    → is_valid_ip ip ≡ true
    → IsInt32 port
    → read_listen_config (config_text ip port) ≡ some (ip, port)
unfolding read_listen_config config_text is_valid_ip
read_listen_config-config_text ip port valid int32 = rw (
  getline_lem ip (show_int port ++ (10 ∷ [])) (valid_ip_line ip 0 0 0 valid),
  getline_lem (show_int port) [] (show_int_line port),
  valid,
  is_numeric-show_int port int32,
)
