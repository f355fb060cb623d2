-- ===== src/Tests/Texts.antt =====
-- Strings and their base64 form.
use wzdftpd.Base.{
  [], ◌∷◌, ◌++◌, some, ◌≡◌, refl, arith, codes, skip_spaces, trim_end, has_char, All, ◌≤◌, ◌-◌, ◌^◌,
  length, false, none,
}
use wzdftpd.Base64.{radix_encode, radix_decode, radix_decode-encode, encode_from, digit}
use wzdftpd.Match.{ascii_lower}
use wzdftpd.Str.{
  Str, str_fromchar, str_append, str_append_c, str_prepend, str_store, str_erase, str_tolower,
  str_dup, str_trim, str_tok, skip_delimiters, token_of, rest_of, str_set_min_size, str_allocate,
}
use wzdftpd.Str.Tok.{cut, kept, leading, separator, str_tok-text}
use wzdftpd.Str.Text.{IsValid, Holds, text, without, after_erase, edits-text, str_trim-text}

unfoldable runs : Unit {0}
unfolding str_fromchar str_append str_trim str_erase str_set_min_size str_allocate radix_encode
    encode_from digit str_tok skip_delimiters token_of rest_of has_char
runs = tt

abbrev padded : Str
padded = str_fromchar (some (codes " Ab c "))

padded-IsValid : IsValid padded
unfolding runs
padded-IsValid = (refl, omega arith)

padded_buffer : padded.buffer ≡ some (codes " Ab c ")
unfolding runs
padded_buffer = refl

edits-text_example :
    Holds (str_append (some padded) (some (codes "xy"))) (text padded ++ codes "xy")
    × Holds (str_append_c (some padded) 122) (text padded ++ 122 ∷ [])
    × Holds (str_prepend (some padded) (some (codes "xy"))) (codes "xy" ++ text padded)
    × Holds (str_store (some padded) (codes "xy")) (codes "xy")
    × Holds (after_erase (str_erase (some padded) 1 2)) (without (text padded) 1 2)
    × Holds (str_tolower (some padded)) (ascii_lower (text padded))
    × Holds (str_dup (some padded)) (text padded)
edits-text_example = edits-text padded (codes "xy") 122 1 2 padded-IsValid (omega arith)

-- Position 1 and the largest size pass the test.
erase_wraps : str_erase (some padded) 1 (2 ^ 64 - 1) ≡ none
unfolding runs
erase_wraps = refl

str_trim-text_example : Holds (str_trim (some padded)) (skip_spaces (trim_end (codes " Ab c ")))
str_trim-text_example = str_trim-text padded (codes " Ab c ") padded_buffer padded-IsValid

first_token :
    (str_tok (str_fromchar (some (codes " a b"))) (some (codes " "))).0.buffer ≡ some (codes "b")
unfolding runs
first_token = refl

encoded : radix_encode (codes "Ma") ≡ codes "TWE="
unfolding runs
encoded = refl

radix_decode-encode_example : radix_decode (radix_encode (codes "Many")) ≡ some (codes "Many")
radix_decode-encode_example =
    radix_decode-encode (codes "Many")
      (omega arith, (omega arith, (omega arith, (omega arith, tt))))

padded-skip : skip_delimiters (codes " ") (codes " Ab c ") ≡ b'A' ∷ codes "b c "
unfolding runs
padded-skip = refl

str_tok-text_example :
    let k = str_tok padded (some (codes " ")) in
    Holds (some k.0) (kept (codes " ") (codes " Ab c "))
    × Holds k.1 (cut (codes " ") (codes " Ab c "))
    × (1 ≤ length (cut (codes " ") (codes " Ab c ")))
    × All (λ x. has_char x (codes " ") ≡ false) (cut (codes " ") (codes " Ab c "))
    × (leading (codes " ") (codes " Ab c ")
          ++ (cut (codes " ") (codes " Ab c ")
              ++ (separator (codes " ") (skip_delimiters (codes " ") (codes " Ab c "))
                  ++ kept (codes " ") (codes " Ab c ")))
        ≡ codes " Ab c ")
str_tok-text_example =
    str_tok-text padded (codes " Ab c ") (codes " ") b'A' (codes "b c ") padded_buffer
      padded-IsValid padded-skip
