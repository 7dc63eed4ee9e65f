-- ===== src/Client/Text.antt =====
-- The functions of `strings` that the commands use: `TrimSpace`, `Fields` and `Split`.
use Prim.Native.Char.{code}
use admin_api.Base.{
  ℕ, String, List, [], ◌∷◌, Bool, ◌&&◌, ◌||◌, leb, ◌==◌, ◌≢◌, refl, arith, if◌then◌else◌, true,
  false,
}

-- `unicode.IsSpace`
abbrev pub is_space : ℕ → Bool
is_space n =
    leb 9 n && leb n 13
    || n == 32
    || n == 133
    || n == 160
    || n == 5760
    || leb 8192 n && leb n 8202
    || n == 8232
    || n == 8233
    || n == 8239
    || n == 8287
    || n == 12288

abbrev pub is_empty : String → Bool
is_empty String.[] = true
is_empty (String.◌∷◌ c s) = false

unfoldable pub trim_right : String → String
trim_right String.[] = ""
trim_right (String.◌∷◌ c s) =
    let rest = trim_right s in if is_space (code c) && is_empty rest then "" else String.◌∷◌ c rest

unfoldable pub trim_left : String → String
trim_left String.[] = ""
trim_left (String.◌∷◌ c s) =
    let rest = trim_left s in if is_space (code c) then rest else String.◌∷◌ c s

unfoldable pub trim_space : String → String
unfolding trim_left trim_right
trim_space s = trim_left (trim_right s)

abbrev add_word : String → List String → List String
add_word w ws = if is_empty w then ws else w ∷ ws

-- The word that the text begins with, "" before a blank, and the words after it.
unfoldable pub first_word : String → String × List String
first_word String.[] = ("", [])
first_word (String.◌∷◌ c s) =
    let (w, ws) = first_word s in
    if is_space (code c) then ("", add_word w ws) else (String.◌∷◌ c w, ws)

unfoldable pub fields : String → List String
unfolding first_word
fields s = let (w, ws) = first_word s in add_word w ws

-- `strings.Split(s, ",")`: the text before the first comma, and those after it.
unfoldable pub cut_commas : String → String × List String
cut_commas String.[] = ("", [])
cut_commas (String.◌∷◌ c s) =
    let (w, ws) = cut_commas s in if code c == 44 then ("", w ∷ ws) else (String.◌∷◌ c w, ws)

unfoldable pub split_commas : String → List String
unfolding cut_commas
split_commas s = let (w, ws) = cut_commas s in w ∷ ws

-- A text that begins with no blank has a first word.
pub fields-trim_left : (s : String) → trim_left s ≢ "" → fields (trim_left s) ≢ []
unfolding trim_left fields first_word
fields-trim_left String.[] h k = h refl
fields-trim_left (String.◌∷◌ c s) h k = ground (arith, fields-trim_left s)
