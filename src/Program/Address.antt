-- ===== src/Program/Address.antt =====
-- is_valid_ip of RTCServerNodeExec.cc against a grammar of addresses.
use aone_webrtc_stt.Base.{
  length, All, IsDigit, is_digit, value_from, ℕ, suc, ◌+◌, ◌-◌, ◌*◌, ◌≤◌, ◌≡◌, refl, sym, ap, ◌∙◌,
  ◌≢◌, ◌↔◌, true, List, [], ◌∷◌, ◌++◌, append-nil, arith, ℕ_discrete,
}
use aone_webrtc_stt.Program.Config.{is_valid_ip_from, is_valid_ip}

-- A run of at most three digits whose value is an octet.
pub record IsPart (cs : List ℕ) : Type 0 where
  pub digits : All IsDigit cs
  pub short : length cs ≤ 3
  pub octet : value_from 0 cs ≤ 255

-- Four such parts with dots between them, of which the last may be empty.
pub record IsAddress (ip : List ℕ) : Type 0 where
  pub a : List ℕ
  pub b : List ℕ
  pub c : List ℕ
  pub d : List ℕ
  pub a_part : IsPart a
  pub b_part : IsPart b
  pub c_part : IsPart c
  pub d_part : IsPart d
  pub a_nonempty : a ≢ []
  pub b_nonempty : b ≢ []
  pub c_nonempty : c ≢ []
  pub written : ip ≡ a ++ (b'.' ∷ (b ++ (b'.' ∷ (c ++ (b'.' ∷ d)))))

abbrev join : List ℕ → List (List ℕ) → List ℕ
join p [] = p
join p (q ∷ qs) = p ++ (b'.' ∷ join q qs)

join_cons : (ch : ℕ) (p : List ℕ) (ps : List (List ℕ)) → ch ∷ join p ps ≡ join (ch ∷ p) ps
join_cons ch p [] = refl
join_cons ch p (q ∷ qs) = refl

-- The rest of a part, behind digits of which there are `count` with the value `num`.
abbrev IsRest : ℕ → ℕ → List ℕ → Type 0
IsRest num count p = All IsDigit p × (count + length p ≤ 3) × (value_from num p ≤ 255)

-- Then the other parts.
abbrev AreRest : ℕ → ℕ → List ℕ → List (List ℕ) → Type 0
AreRest num count p [] = IsRest num count p
AreRest num count p (q ∷ qs) = IsRest num count p × (count + length p ≢ 0) × AreRest 0 0 q qs

digit_rest :
    (ch num count : ℕ) (p : List ℕ) (ps : List (List ℕ))
    → IsDigit ch
    → AreRest (num * 10 + (ch - b'0')) (suc count) p ps
    → AreRest num count (ch ∷ p) ps
unfolding value_from
digit_rest ch num count p [] h (ds, few, v) = ((h, ds), omega arith, v)
digit_rest ch num count p (q ∷ qs) h ((ds, few, v), some_digit, more) =
    (((h, ds), omega arith, v), λ e. omega arith, more)

digits_run :
    (p : List ℕ) (dots num count : ℕ) (tail : List ℕ)
    → All IsDigit p
    → count + length p ≤ 3
    → is_valid_ip_from dots num count (p ++ tail)
      ≡ is_valid_ip_from dots (value_from num p) (count + length p) tail
unfolding is_valid_ip_from is_digit value_from
digits_run [] dots num count tail h few = ap (λ n. is_valid_ip_from dots num n tail) (omega arith)
digits_run (ch ∷ p) dots num count tail (h, hs) few =
    ground (arith, digits_run p dots (num * 10 + (ch - b'0')) (suc count) tail hs (omega arith))

rest_valid :
    (ps : List (List ℕ)) (p : List ℕ) (dots num count : ℕ)
    → length ps + dots ≡ 3
    → AreRest num count p ps
    → is_valid_ip_from dots num count (join p ps) ≡ true
unfolding is_valid_ip_from
rest_valid [] p dots num count three (ds, few, v) =
    ap (is_valid_ip_from dots num count) (sym (append-nil p))
    ∙ digits_run p dots num count [] ds few
    ∙ ground arith
rest_valid (q ∷ qs) p dots num count three ((ds, few, v), some_digit, more) =
    digits_run p dots num count (b'.' ∷ join q qs) ds few
    ∙ ground (arith, rest_valid qs q (suc dots) 0 0 (omega arith) more)

dot_valid :
    (ch dots num count : ℕ) (ip : List ℕ)
    → ch ≡ b'.'
    → is_valid_ip_from dots num count (ch ∷ ip) ≡ true
    → (count ≢ 0) × (num ≤ 255) × (is_valid_ip_from (suc dots) 0 0 ip ≡ true)
unfolding is_valid_ip_from
dot_valid ch dots num count ip dot e = ground arith

valid-IsDigit :
    (ch dots num count : ℕ) (ip : List ℕ)
    → ch ≢ b'.'
    → is_valid_ip_from dots num count (ch ∷ ip) ≡ true
    → IsDigit ch
      × (count ≤ 2)
      × (is_valid_ip_from dots (num * 10 + (ch - b'0')) (suc count) ip ≡ true)
unfolding is_valid_ip_from is_digit
valid-IsDigit ch dots num count ip more e = ground arith

valid_rest :
    (ip : List ℕ) (dots num count : ℕ)
    → count ≤ 3
    → is_valid_ip_from dots num count ip ≡ true
    → (p : List ℕ) × (ps : List (List ℕ)) × (length ps + dots ≡ 3)
      × AreRest num count p ps
      × (ip ≡ join p ps)
unfolding is_valid_ip_from is_digit value_from
valid_rest [] dots num count few e = ([], [], ground arith, (tt, omega arith, ground arith), refl)
valid_rest (ch ∷ ip) dots num count few e = elim (ℕ_discrete ch b'.') [
  | yes dot ↦
      let (some_digit, v, e') = dot_valid ch dots num count ip dot e in
      let (q, qs, three, more, is) = valid_rest ip (suc dots) 0 0 (omega arith) e' in
      (
        [],
        q ∷ qs,
        omega (arith, three),
        ((tt, omega arith, v), λ z. some_digit (omega arith), more),
        ap (λ x. x ∷ ip) dot ∙ ap (λ l. b'.' ∷ l) is,
      )
  | no more ↦
      let (h, few', e') = valid-IsDigit ch dots num count ip more e in
      let (p, ps, three, rest, is) =
        valid_rest ip dots (num * 10 + (ch - b'0')) (suc count) (omega arith) e' in
      (
        ch ∷ p,
        ps,
        three,
        digit_rest ch num count p ps h rest,
        ap (λ l. ch ∷ l) is ∙ join_cons ch p ps,
      )
]

IsRest-IsPart : (p : List ℕ) → IsRest 0 0 p → IsPart p
IsRest-IsPart p (ds, few, v) = record { digits = ds; short = omega arith; octet = v }

nonempty_of : (p : List ℕ) → 0 + length p ≢ 0 → p ≢ []
nonempty_of p h e = h (omega (arith, ap length e))

AreRest-IsAddress :
    (ip p : List ℕ) (ps : List (List ℕ))
    → length ps + 0 ≡ 3
    → AreRest 0 0 p ps
    → ip ≡ join p ps
    → IsAddress ip
AreRest-IsAddress ip p [] three h is = absurd (omega arith)
AreRest-IsAddress ip p (b ∷ []) three h is = absurd (omega arith)
AreRest-IsAddress ip p (b ∷ c ∷ []) three h is = absurd (omega arith)
AreRest-IsAddress ip p (b ∷ c ∷ d ∷ []) three
      ((p_rest, p_some, (b_rest, b_some, (c_rest, c_some, d_rest)))) is =
    record {
      a = p;
      b = b;
      c = c;
      d = d;
      a_part = IsRest-IsPart p p_rest;
      b_part = IsRest-IsPart b b_rest;
      c_part = IsRest-IsPart c c_rest;
      d_part = IsRest-IsPart d d_rest;
      a_nonempty = nonempty_of p p_some;
      b_nonempty = nonempty_of b b_some;
      c_nonempty = nonempty_of c c_some;
      written = is;
    }
AreRest-IsAddress ip p (b ∷ c ∷ d ∷ e ∷ ps) three h is = absurd (omega arith)

IsPart-IsRest : (p : List ℕ) → IsPart p → IsRest 0 0 p
IsPart-IsRest p h = (h.digits, omega (arith, h.short), h.octet)

nonempty_length : (p : List ℕ) → p ≢ [] → 0 + length p ≢ 0
nonempty_length [] h e = h refl
nonempty_length (ch ∷ p) h e = omega arith

-- An address is taken just when it is four parts with dots between them, each a run of at most three
-- digits whose value is at most 255, and none but the last is empty.
pub is_valid_ip-IsAddress : (ip : List ℕ) → (is_valid_ip ip ≡ true) ↔ IsAddress ip
unfolding is_valid_ip
is_valid_ip-IsAddress ip = (
  λ e.
      let (p, ps, three, more, is) = valid_rest ip 0 0 0 (omega arith) e in
      AreRest-IsAddress ip p ps three more is,
  λ h.
      ap is_valid_ip h.written
      ∙ rest_valid (h.b ∷ h.c ∷ h.d ∷ []) h.a 0 0 0 refl (
        IsPart-IsRest h.a h.a_part,
        nonempty_length h.a h.a_nonempty,
        (
          IsPart-IsRest h.b h.b_part,
          nonempty_length h.b h.b_nonempty,
          (
            IsPart-IsRest h.c h.c_part,
            nonempty_length h.c h.c_nonempty,
            IsPart-IsRest h.d h.d_part,
          ),
        ),
      ),
)
