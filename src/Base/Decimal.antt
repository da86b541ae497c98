-- ===== src/Base/Decimal.antt =====
-- Decimal digits: what std::to_string and the stream operator write for a number that is not
-- negative, and the value that a run of digits stands for.
use Prim.Native.Char.{code}
use Prim.Native.String.{String}
use Prim.Native.Nat.{ℕ, zero, suc, ◌+◌, ◌-◌, ◌*◌, ◌/◌, ◌%◌, ◌≤◌, ◌<◌}
use mathlib.Core.Path.{◌≡◌, refl}
use mathlib.Core.Logic.{◌≢◌}
use mathlib.Core.Bool.{Bool, ◌&&◌}
use mathlib.Core.List.{List, [], ◌∷◌}
use native.Mathlib.Omega.{arith}
use aone_webrtc_stt.Base.Tests.{ltb, leb, ltb→lt, if◌then◌else◌}
use aone_webrtc_stt.Base.Lists.{All}

-- The code points of a text: its bytes, if it is ASCII.
abbrev pub codes : String → List ℕ
codes String.[] = []
codes (String.◌∷◌ c s) = code c ∷ codes s

-- The digits in front of those already written; the fuel bounds the number of digits.
unfoldable pub decimal_from : ℕ → ℕ → List ℕ → List ℕ
decimal_from zero n out = out
decimal_from (suc fuel) n out =
    let more = decimal_from fuel (n / 10) ((b'0' + n % 10) ∷ out) in
    if ltb n 10 then (b'0' + n) ∷ out else more

unfoldable pub decimal : ℕ → List ℕ
unfolding decimal_from
decimal n = decimal_from (suc n) n []

unfoldable pub is_digit : ℕ → Bool
is_digit c = leb b'0' c && leb c b'9'

-- The value of a run of digits behind the value of those before it.
unfoldable pub value_from : ℕ → List ℕ → ℕ
value_from v [] = v
value_from v (c ∷ cs) = value_from (v * 10 + (c - b'0')) cs

abbrev pub IsDigit : ℕ → Type 0
IsDigit c = (b'0' ≤ c) × (c ≤ b'9')

pub decimal_from-IsDigit :
    (fuel n : ℕ) (out : List ℕ) → All IsDigit out → All IsDigit (decimal_from fuel n out)
unfolding decimal_from
decimal_from-IsDigit zero n out h = h
decimal_from-IsDigit (suc fuel) n out h = ground (
  arith,
  ltb→lt n 10,
  decimal_from-IsDigit fuel (n / 10) ((b'0' + n % 10) ∷ out) (omega arith, h),
)

-- Every character written is a digit.
pub decimal-IsDigit : (n : ℕ) → All IsDigit (decimal n)
unfolding decimal
decimal-IsDigit n = decimal_from-IsDigit (suc n) n [] tt

value_from-decimal_from :
    (fuel n : ℕ) (out : List ℕ)
    → n < fuel
    → value_from 0 (decimal_from fuel n out) ≡ value_from n out
unfolding decimal_from value_from
value_from-decimal_from zero n out h = absurd (omega arith)
value_from-decimal_from (suc fuel) n out h =
    ground (arith, value_from-decimal_from fuel (n / 10) ((b'0' + n % 10) ∷ out))

-- The digits of a number have its value: the fuel is enough.
pub value_from-decimal : (n : ℕ) → value_from 0 (decimal n) ≡ n
unfolding decimal value_from
value_from-decimal n = value_from-decimal_from (suc n) n [] (omega arith)

decimal_from_nonempty : (fuel n c : ℕ) (out : List ℕ) → decimal_from fuel n (c ∷ out) ≢ []
unfolding decimal_from
decimal_from_nonempty zero n c out = λ e. cc
decimal_from_nonempty (suc fuel) n c out =
    ground (arith, decimal_from_nonempty fuel (n / 10) (b'0' + n % 10) (c ∷ out))

pub decimal_nonempty : (n : ℕ) → decimal n ≢ []
unfolding decimal decimal_from
decimal_nonempty n = ground (arith, decimal_from_nonempty n (n / 10) (b'0' + n % 10) [])

decimal_test : decimal 65535 ≡ codes "65535"
unfolding decimal
decimal_test = refl
