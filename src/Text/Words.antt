-- ===== src/Text/Words.antt =====
-- Texts of the program's sentences, and `text.strip()`.
use Prim.Native.Char.{code}
use Prim.Native.String.{String}
use asf_wms.Prelude.{ℕ, leb, Bool, ◌&&◌, ◌||◌, Option, none, some, [], ◌∷◌, if◌then◌else◌}
use asf_wms.Text.{Text}

-- A sentence as code points.
abbrev pub codes : String → Text
codes String.[] = []
codes (String.◌∷◌ c s) = code c ∷ codes s

-- White space of ASCII.
abbrev pub is_space : ℕ → Bool
is_space c = (leb 9 c && leb c 13) || (leb 28 c && leb c 32)

abbrev pub drop_spaces : Text → Text
drop_spaces [] = []
drop_spaces (c ∷ cs) = let rest = drop_spaces cs in if is_space c then rest else c ∷ cs

-- Adds a character in front of a text that has no space at its end, but for a last space.
abbrev pub keep : ℕ → Text → Text
keep c [] = if is_space c then [] else c ∷ []
keep c (d ∷ ds) = c ∷ d ∷ ds

abbrev pub drop_last_spaces : Text → Text
drop_last_spaces [] = []
drop_last_spaces (c ∷ cs) = keep c (drop_last_spaces cs)

-- `text.strip()`
abbrev pub strip : Text → Text
strip t = drop_last_spaces (drop_spaces t)

-- `text or default`
abbrev pub or_text : Text → Text → Text
or_text [] d = d
or_text (c ∷ cs) d = c ∷ cs

-- `text or ""`, for a text that may be missing
abbrev pub text_or_empty : Option Text → Text
text_or_empty none = []
text_or_empty (some t) = t
