-- ===== src/Program/Config.antt =====
-- rtc_server_node/RTCServerNodeExec/RTCServerNodeExec.cc: the address and the port to listen on, read
-- from a file or asked for. A text is its characters. The file is its content, if it exists; `writable` says
-- whether it can be written. The operator's lines are a list; where it ends, the code asks for ever,
-- which is `none`.
use aone_webrtc_stt.Base.{
  ℤ, pos, negsuc, decimal, is_digit, value_from, ℕ, zero, suc, ◌+◌, ◌-◌, ◌*◌, ◌^◌, Bool, false,
  ◌&&◌, ◌||◌, Option, none, some, List, [], ◌∷◌, ◌++◌, ltb, leb, ◌==◌, if◌then◌else◌, ◌>>=◌,
}

-- std::from_chars to an int, base 10: a minus sign, then the longest run of digits; no digits, or
-- a value that is no int, is an error.
unfoldable pub take_digits : List ℕ → List ℕ
take_digits [] = []
take_digits (c ∷ cs) = let rest = take_digits cs in if is_digit c then c ∷ rest else []

unfoldable pub non_negative : List ℕ → Option ℤ
non_negative [] = none
non_negative (c ∷ cs) =
    let v = value_from 0 (c ∷ cs) in if ltb v (2 ^ 31) then some (pos v) else none

abbrev pub negated : ℕ → Option ℤ
negated zero = some (pos 0)
negated (suc n) = if ltb n (2 ^ 31) then some (negsuc n) else none

unfoldable pub negative : List ℕ → Option ℤ
negative [] = none
negative (c ∷ cs) = negated (value_from 0 (c ∷ cs))

unfoldable pub is_numeric : List ℕ → Option ℤ
unfolding take_digits non_negative negative
is_numeric [] = none
is_numeric (c ∷ cs) =
    if c == b'-' then negative (take_digits cs) else non_negative (take_digits (c ∷ cs))

unfoldable pub is_valid_ip_from : ℕ → ℕ → ℕ → List ℕ → Bool
is_valid_ip_from dots num count [] = (dots == 3) && leb num 255
is_valid_ip_from dots num count (ch ∷ ip) =
    let after_dot = is_valid_ip_from (suc dots) 0 0 ip in
    let after_digit = is_valid_ip_from dots (num * 10 + (ch - b'0')) (suc count) ip in
    if ch == b'.'
    then (if (count == 0) || ltb 255 num then false else after_dot)
    else if is_digit ch
    then (if ltb 3 (suc count) then false else after_digit)
    else false

unfoldable pub is_valid_ip : List ℕ → Bool
unfolding is_valid_ip_from
is_valid_ip ip = is_valid_ip_from 0 0 0 ip

-- std::getline: the characters before the next line feed, and those behind it.
unfoldable pub getline : List ℕ → List ℕ × List ℕ
getline [] = ([], [])
getline (c ∷ cs) = let (line, rest) = getline cs in if c == 10 then ([], cs) else (c ∷ line, rest)

-- What operator<< writes for an int.
unfoldable pub show_int : ℤ → List ℕ
show_int (pos n) = decimal n
show_int (negsuc n) = b'-' ∷ decimal (suc n)

-- The file's address and port, where it holds both.
unfoldable pub read_listen_config : List ℕ → Option (List ℕ × ℤ)
unfolding getline is_valid_ip is_numeric
read_listen_config content =
    let (ip_line, rest) = getline content in
    let (port_line, _) = getline rest in
    let config = is_numeric port_line >>= λ port. some (ip_line, port) in
    if is_valid_ip ip_line then config else none

-- The loop that asks. The first argument is the address, once it was given and is valid.
unfoldable pub ask_listen_config : Option (List ℕ) → List (List ℕ) → Option (List ℕ × ℤ)
unfolding is_valid_ip is_numeric
ask_listen_config _ [] = none
ask_listen_config none (ip_input ∷ lines) =
    let next = if is_valid_ip ip_input then some ip_input else none in ask_listen_config next lines
ask_listen_config (some ip_input) (port_input ∷ lines) =
    let again = ask_listen_config none lines in
    elim (is_numeric port_input) [ some port ↦ some (ip_input, port) | none ↦ again ]

unfoldable pub config_text : List ℕ → ℤ → List ℕ
unfolding show_int
config_text ip port = ip ++ (10 ∷ (show_int port ++ (10 ∷ [])))

-- The address, the port, and the file that is left.
abbrev Config : Type 0
Config = (List ℕ × ℤ) × Option (List ℕ)

-- Behind the reading of the file: the operator is asked, and a file is written.
unfoldable pub create_listen_config : Bool → Option (List ℕ) → List (List ℕ) → Option Config
unfolding ask_listen_config config_text
create_listen_config writable left lines = ask_listen_config none lines >>= λ (ip, port).
    some ((ip, port), if writable then some (config_text ip port) else left)

-- A file that does not hold both is removed.
unfoldable pub read_or_create_listen_config : Bool → Option (List ℕ) → List (List ℕ) → Option Config
unfolding read_listen_config create_listen_config
read_or_create_listen_config writable none lines = create_listen_config writable none lines
read_or_create_listen_config writable (some content) lines =
    let asked = create_listen_config writable none lines in
    elim (read_listen_config content) [ some config ↦ some (config, some content) | none ↦ asked ]
