-- ===== src/Uri.antt =====
-- Percent-encoding: `URI::encode`, `URI::decode` and the printing of URIs of tools/uri/uri.cpp. A
-- text is the list of its bytes, each as an unsigned number; where the code reads one as a signed
-- `char`, `as_unsigned` says what it becomes.
use ydsh.Prelude.{
  Bool, List, [], false, if◌then◌else◌, leb, ltb, not, suc, true, zero, ℕ, ◌%◌, ◌&&◌, ◌*◌, ◌++◌,
  ◌+◌, ◌-◌, ◌/◌, ◌==◌, ◌^◌, ◌||◌, ◌∷◌,
}
mod RoundTrip
mod Tests

abbrev pub Byte : Type 0
Byte = ℕ

abbrev pub percent : Byte
percent = 37

abbrev pub in_range : ℕ → ℕ → Byte → Bool
in_range lo hi c = leb lo c && leb c hi

-- `isEscaped`: all but letters, digits and `.`, `_`, `~`, `/`.
pub is_escaped : Byte → Bool
is_escaped c = not (
    c == b'.'
    || c == b'_'
    || c == b'~'
    || c == b'/'
    || in_range 48 57 c
    || in_range 97 122 c
    || in_range 65 90 c)

-- A `char` that is passed to `%X` is widened with its sign and read as an unsigned number.
abbrev pub as_unsigned : Byte → ℕ
as_unsigned b = if ltb b 128 then b else 2 ^ 32 - 256 + b

abbrev pub upper_hex : ℕ → Byte
upper_hex d = if ltb d 10 then 48 + d else 55 + d

-- The digits of a number below 16 ^ fuel.
abbrev pub hex_digits : ℕ → ℕ → List Byte
hex_digits zero n = []
hex_digits (suc fuel) n =
    let high = hex_digits fuel (n / 16) in if n == 0 then [] else high ++ upper_hex (n % 16) ∷ []

abbrev pub pad_two : List Byte → List Byte
pad_two [] = 48 ∷ 48 ∷ []
pad_two (d ∷ []) = 48 ∷ d ∷ []
pad_two (d ∷ e ∷ ds) = d ∷ e ∷ ds

-- `snprintf` with "%02X", for a number of 32 bits.
pub format_02x : ℕ → List Byte
format_02x n = pad_two (hex_digits 8 n)

pub encode_char : Byte → List Byte
unfolding is_escaped format_02x
encode_char c = if is_escaped c then percent ∷ format_02x (as_unsigned c) else c ∷ []

pub encode : List Byte → List Byte
unfolding encode_char
encode [] = []
encode (c ∷ cs) = encode_char c ++ encode cs

pub is_hex : Byte → Bool
is_hex c = in_range 48 57 c || in_range 65 70 c || in_range 97 102 c

pub hex_to_num : Byte → ℕ
hex_to_num c =
    if in_range 48 57 c
    then c - 48
    else if in_range 97 102 c
    then 10 + (c - 97)
    else if in_range 65 70 c
    then 10 + (c - 65)
    else 0

pub decode : List Byte → List Byte
unfolding is_hex hex_to_num
decode [] = []
decode (c ∷ []) = c ∷ []
decode (c ∷ d ∷ []) = c ∷ d ∷ []
decode (c ∷ d ∷ e ∷ cs) =
    let taken = (16 * hex_to_num d + hex_to_num e) % 256 ∷ decode cs in
    let plain = c ∷ decode (d ∷ e ∷ cs) in
    if c == percent && (is_hex d && is_hex e) then taken else plain

pub record Authority : Type 0 where
  pub userinfo : List Byte
  pub host : List Byte
  pub port : List Byte

pub record Uri : Type 0 where
  pub scheme : List Byte
  pub authority : Authority
  pub path : List Byte
  pub query : List Byte
  pub fragment : List Byte

abbrev pub unless_empty : List Byte → List Byte → List Byte
unless_empty [] text = []
unless_empty (c ∷ cs) text = text

pub authority_to_string : Authority → List Byte
unfolding encode
authority_to_string a =
    unless_empty a.userinfo (encode a.userinfo ++ b'@' ∷ [])
    ++ (encode a.host ++ unless_empty a.port (b':' ∷ encode a.port))

abbrev pub starts_slash : List Byte → Bool
starts_slash [] = false
starts_slash (c ∷ cs) = c == b'/'

abbrev pub is_empty : List Byte → Bool
is_empty [] = true
is_empty (c ∷ cs) = false

pub uri_to_string : Uri → List Byte
unfolding authority_to_string encode
uri_to_string u =
    u.scheme
    ++ (b':'
        ∷ ((if not (is_empty u.authority.host) || starts_slash u.path
              then b'/' ∷ b'/' ∷ authority_to_string u.authority
              else [])
            ++ (encode u.path
                ++ (unless_empty u.query (b'?' ∷ encode u.query)
                    ++ unless_empty u.fragment (b'#' ∷ encode u.fragment)))))
