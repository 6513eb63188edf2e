-- ===== src/Portal/Tests.antt =====
-- A form that is read, and the theorem at it.
use esp32_deepgram_voice_age.Common.{ℕ, ◌≡◌, refl, some, List, [], ◌∷◌, arith}
use esp32_deepgram_voice_age.Common.Bytes.{codes}
use esp32_deepgram_voice_age.Portal.{
  hexval, hex_pair, c_string, form_value, after_key, after_amp, form_find, form_get, json_escape,
}
use esp32_deepgram_voice_age.Portal.Form.{encode_byte, encode}
use esp32_deepgram_voice_age.Portal.Fields.{form, form_get-form}

abbrev fields : List (List ℕ × List ℕ)
fields = (b's' ∷ b's' ∷ [], b'a' ∷ b'&' ∷ b' ' ∷ 200 ∷ []) ∷ (b'p' ∷ [], b'%' ∷ []) ∷ []

form_is : form fields ≡ codes "ss=a%26+%C8&p=%25"
unfolding encode encode_byte
form_is = refl

second_field : form_get (form fields) (b'p' ∷ []) 33 ≡ some (b'%' ∷ [])
unfolding form_get form_find after_key after_amp form_value c_string hex_pair hexval encode
    encode_byte
second_field = refl

-- A value too long for the buffer is cut.
first_cut : form_get (form fields) (b's' ∷ b's' ∷ []) 3 ≡ some (b'a' ∷ b'&' ∷ [])
unfolding form_get form_find after_key after_amp form_value c_string hex_pair hexval encode
    encode_byte
first_cut = refl

quoted : json_escape 34 (b'"' ∷ 10 ∷ []) ≡ codes "\\\"\\u000a"
unfolding json_escape
quoted = refl

-- "%00" ends the answer.
cut_at_nul : form_get (codes "k=a%00b") (codes "k") 33 ≡ some (codes "a")
unfolding form_get form_find after_key after_amp form_value c_string hex_pair hexval
cut_at_nul = refl

form_get-form_example :
    form_get (form fields) (b's' ∷ b's' ∷ []) 33 ≡ some (b'a' ∷ b'&' ∷ b' ' ∷ 200 ∷ [])
unfolding c_string
form_get-form_example =
    form_get-form 33 (b's' ∷ b's' ∷ []) fields ((refl, (refl, refl)), ((refl, (refl, refl)), tt))
      (
        (
          ((refl, (refl, refl)), ((refl, (refl, refl)), tt)),
          ((omega arith, (omega arith, (omega arith, (omega arith, tt)))), omega arith),
        ),
        ((((refl, (refl, refl)), tt), ((omega arith, tt), omega arith)), tt),
      )
