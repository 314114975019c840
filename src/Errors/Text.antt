-- ===== src/Errors/Text.antt =====
-- What the patterns of src/lib/errors.ts use of JavaScript's texts: lower case, an anchored
-- prefix, and a word between boundaries (`\b`), over code points.
use Prim.Native.Char.{code}
use Prim.Native.String.{String}
use miradex_client.Prelude.{
  ℕ, ◌+◌, Bool, true, false, not, ◌&&◌, ◌||◌, List, [], ◌∷◌, map, leb, ◌==◌, if◌then◌else◌,
}

abbrev pub codes : String → List ℕ
codes String.[] = []
codes (String.◌∷◌ c s) = code c ∷ codes s

pub lower_code : ℕ → ℕ
lower_code c = if leb b'A' c && leb c b'Z' then c + 32 else c

unfoldable pub lower : List ℕ → List ℕ
unfolding lower_code
lower s = map lower_code s

unfoldable pub starts_with : List ℕ → List ℕ → Bool
starts_with [] s = true
starts_with (p ∷ ps) [] = false
starts_with (p ∷ ps) (c ∷ s) = p == c && starts_with ps s

-- `\w`
is_word_code : ℕ → Bool
is_word_code c =
    (leb b'a' c && leb c b'z')
    || (leb b'A' c && leb c b'Z')
    || (leb b'0' c && leb c b'9')
    || c == b'_'

-- The word stands here, and no further word character follows. The words in question begin and
-- end with one.
word_here : List ℕ → List ℕ → Bool
word_here [] [] = true
word_here [] (c ∷ s) = not (is_word_code c)
word_here (w ∷ ws) [] = false
word_here (w ∷ ws) (c ∷ s) = w == c && word_here ws s

-- `inside`: the character before this place is a word character.
word_from : Bool → List ℕ → List ℕ → Bool
word_from inside w [] = false
word_from inside w (c ∷ s) = (not inside && word_here w (c ∷ s)) || word_from (is_word_code c) w s

unfoldable pub has_word : List ℕ → List ℕ → Bool
unfolding word_from word_here is_word_code
has_word w s = word_from false w s

pub includes_codes : List ℕ → List ℕ → Bool
includes_codes needle [] = starts_with needle []
includes_codes needle (c ∷ s) = starts_with needle (c ∷ s) || includes_codes needle s

-- `text.includes(needle)`
unfoldable pub includes : String → String → Bool
unfolding includes_codes starts_with
includes needle text = includes_codes (codes needle) (codes text)
