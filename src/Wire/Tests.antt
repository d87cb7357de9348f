-- ===== src/Wire/Tests.antt =====
-- The record of portable.c's `main`, and the theorems at it.
use programming_with_c.Base.{
  ℕ, ◌+◌, ◌≡◌, inl, refl, false, List, [], ◌∷◌, ◌++◌, none, some, arith, length, take, drop,
  replicate,
}
use programming_with_c.Base.Text.{mem_eq}
use programming_with_c.Wire.{
  Record, record_encode, record_decode, pad_name, utf8_safe_truncate, utf8_length, strnlen, magic,
}
use programming_with_c.Wire.Format.{InRange, decode-encode, decode_refuses, length-record_encode}
use programming_with_c.Wire.Utf8.{utf8_length-append}

abbrev original : Record
original = record {
  id = 0x12345678;
  score = 950;
  timestamp = 1_735_689_600;
  name = b'A' ∷ b'd' ∷ b'a' ∷ replicate 29 0;
}

original-InRange : InRange original
original-InRange = omega arith

-- Bytes 6 to 9 are 12 34 56 78, as the comment in `main` says.
wire_id : take 4 (drop 6 (record_encode original)) ≡ 0x12 ∷ 0x34 ∷ 0x56 ∷ 0x78 ∷ []
unfolding record_encode
wire_id = refl

decode-encode_example :
    record_decode (record_encode original)
    ≡ some (record original { name = pad_name original.name })
decode-encode_example = decode-encode original original-InRange (unfold strnlen in omega arith)

foreign : mem_eq (take 4 (88 ∷ 88 ∷ 88 ∷ 88 ∷ [])) magic ≡ false
unfolding mem_eq
foreign = refl

decode_refuses_example : record_decode (88 ∷ 88 ∷ 88 ∷ 88 ∷ []) ≡ none
decode_refuses_example = decode_refuses (88 ∷ 88 ∷ 88 ∷ 88 ∷ []) (inl foreign)

length-record_encode_example : length (record_encode original) ≡ 52
length-record_encode_example = length-record_encode original

-- "tü": a cut behind two bytes would split the second character.
abbrev tu : List ℕ
tu = 0x74 ∷ 0xc3 ∷ 0xbc ∷ []

cut_two : utf8_safe_truncate tu 2 ≡ 1
unfolding utf8_safe_truncate
cut_two = refl

utf8_length-append_example : utf8_length (tu ++ tu) ≡ utf8_length tu + utf8_length tu
utf8_length-append_example = utf8_length-append tu tu
