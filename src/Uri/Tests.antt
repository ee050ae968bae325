-- ===== src/Uri/Tests.antt =====
-- Tests of percent-encoding, and its theorems at concrete texts.
use ydsh.Prelude.{[], arith, refl, ◌%◌, ◌/◌, ◌∷◌, ◌≡◌}
use ydsh.Uri.{encode, decode, upper_hex, uri_to_string}
use ydsh.Uri.RoundTrip.{decode-encode, decode-encode_wide}

-- `a b`
encodes_space : encode (b'a' ∷ 32 ∷ b'b' ∷ []) ≡ b'a' ∷ b'%' ∷ b'2' ∷ b'0' ∷ b'b' ∷ []
unfolding encode
encodes_space = refl

keeps_broken : decode (b'%' ∷ b'2' ∷ []) ≡ b'%' ∷ b'2' ∷ []
unfolding decode
keeps_broken = refl

-- `file:///a`
prints :
    uri_to_string (record {
      scheme = b'f' ∷ [];
      authority = record { userinfo = []; host = []; port = [] };
      path = b'/' ∷ b'a' ∷ [];
      query = [];
      fragment = [];
    })
    ≡ b'f' ∷ b':' ∷ b'/' ∷ b'/' ∷ b'/' ∷ b'a' ∷ []
unfolding uri_to_string
prints = refl

decode-encode_example : decode (encode (37 ∷ 65 ∷ 10 ∷ [])) ≡ 37 ∷ 65 ∷ 10 ∷ []
decode-encode_example = decode-encode (37 ∷ 65 ∷ 10 ∷ []) (omega arith)

decode-encode_wide_example :
    decode (encode (227 ∷ []))
    ≡ 255 ∷ 70 ∷ 70 ∷ 70 ∷ 70 ∷ upper_hex (227 / 16) ∷ upper_hex (227 % 16) ∷ []
decode-encode_wide_example = decode-encode_wide 227 (omega arith) (omega arith)
