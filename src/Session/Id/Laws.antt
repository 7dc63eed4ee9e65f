-- ===== src/Session/Id/Laws.antt =====
-- Session ids: their length, and that different bytes give different ids.
use Prim.Native.String
use Prim.Native.String.{count}
use text.Mathlib.TextLemmas.{length-append, append_inj}
use admin_api.Base.{
  ℕ, zero, suc, ◌*◌, ◌<◌, ◌/◌, ◌%◌, String, List, [], ◌∷◌, ◌≡◌, refl, sym, ap, ◌∙◌, arith, length,
  All, str_eq, if◌then◌else◌,
}
use admin_api.Session.Id.{hex_digit, encode_to_string}

count-hex_digit : (d : ℕ) → count (hex_digit d) ≡ 1
unfolding hex_digit
count-hex_digit
      (suc (suc (suc (suc (suc (suc (suc (suc (suc (suc (suc (suc (suc (suc zero)))))))))))))) =
    refl
count-hex_digit _ = refl

-- A session id has two characters for each byte: 64 for the 32 bytes of the source.
pub count-encode_to_string : (bs : List ℕ) → count (encode_to_string bs) ≡ 2 * length bs
unfolding encode_to_string
count-encode_to_string [] = refl
count-encode_to_string (b ∷ bs) =
    rw (length-append, length-append, count-hex_digit, count-hex_digit, count-encode_to_string bs)
      (omega arith)

-- `hex_digit` is undone on the digits below 16.
hex_value : String → ℕ
hex_value s =
    if str_eq s "0"
    then 0
    else if str_eq s "1"
    then 1
    else if str_eq s "2"
    then 2
    else if str_eq s "3"
    then 3
    else if str_eq s "4"
    then 4
    else if str_eq s "5"
    then 5
    else if str_eq s "6"
    then 6
    else if str_eq s "7"
    then 7
    else if str_eq s "8"
    then 8
    else if str_eq s "9"
    then 9
    else if str_eq s "a"
    then 10
    else if str_eq s "b"
    then 11
    else if str_eq s "c"
    then 12
    else if str_eq s "d"
    then 13
    else if str_eq s "e"
    then 14
    else 15

hex_value-hex_digit : (d : ℕ) → d < 16 → hex_value (hex_digit d) ≡ d
unfolding hex_value hex_digit
hex_value-hex_digit
      (suc (suc (suc (suc (suc (suc (suc (suc (suc (suc (suc (suc (suc (suc zero)))))))))))))) h =
    refl
hex_value-hex_digit _ h = omega arith

hex_digit_inj : (a b : ℕ) → a < 16 → b < 16 → hex_digit a ≡ hex_digit b → a ≡ b
hex_digit_inj a b p q e = sym (hex_value-hex_digit a p) ∙ ap hex_value e ∙ hex_value-hex_digit b q

digits_inj :
    (a b : ℕ) (s t : String)
    → a < 16
    → b < 16
    → String.◌++◌ (hex_digit a) s ≡ String.◌++◌ (hex_digit b) t
    → (a ≡ b) × (s ≡ t)
digits_inj a b s t p q e =
    let (same, rest) =
      append_inj {s₁ = hex_digit a} {s₂ = hex_digit b} {t₁ = s} {t₂ = t} e
        (count-hex_digit a ∙ sym (count-hex_digit b)) in
    (hex_digit_inj a b p q same, rest)

length-eq_of_encode_to_string :
    (bs cs : List ℕ) → encode_to_string bs ≡ encode_to_string cs → length bs ≡ length cs
length-eq_of_encode_to_string bs cs e =
    omega (arith, ap count e, count-encode_to_string bs, count-encode_to_string cs)

-- The same id comes from the same bytes only.
pub encode_to_string_inj :
    (bs cs : List ℕ)
    → All (λ b. b < 256) bs
    → All (λ c. c < 256) cs
    → encode_to_string bs ≡ encode_to_string cs
    → bs ≡ cs
unfolding encode_to_string
encode_to_string_inj [] [] h k e = refl
encode_to_string_inj [] (c ∷ cs) h k e =
    absurd (omega (arith, length-eq_of_encode_to_string [] (c ∷ cs) e))
encode_to_string_inj (b ∷ bs) [] h k e =
    absurd (omega (arith, length-eq_of_encode_to_string (b ∷ bs) [] e))
encode_to_string_inj (b ∷ bs) (c ∷ cs) (hb, hs) (kc, ks) e =
    let (high, rest) = digits_inj (b / 16) (c / 16) _ _ (omega arith) (omega arith) e in
    let (low, tail) = digits_inj (b % 16) (c % 16) _ _ (omega arith) (omega arith) rest in
    let same : b ≡ c = omega arith in cc (encode_to_string_inj bs cs hs ks tail)
