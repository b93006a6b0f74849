-- ===== src/Common/Strings.antt =====
-- Python's `str` as its code points, and the methods `strip`, `upper` and `lower`, on the ASCII range: a code
-- point from 128 on is taken to be neither white space nor cased.
use Prim.Native.Nat.{ℕ, ◌+◌, ◌-◌}
use Prim.Native.Char.{code}
use Prim.Native.String.{String}
use mathlib.Core.Bool.{Bool, true, false, ◌&&◌, ◌||◌}
use mathlib.Core.List.{List, [], ◌∷◌, map}
use automated_reconciliation.Common.Tests.{leb, ◌==◌, if◌then◌else◌}

abbrev pub Text : Type 0
Text = List ℕ

abbrev pub text : String → Text
text String.[] = []
text (String.◌∷◌ c s) = code c ∷ text s

-- `str.isspace` on one ASCII character
abbrev pub is_space : ℕ → Bool
is_space c = c == 32 || (leb 9 c && leb c 13) || (leb 28 c && leb c 31)

unfoldable pub to_upper : ℕ → ℕ
to_upper c = if leb 97 c && leb c 122 then c - 32 else c

unfoldable pub to_lower : ℕ → ℕ
to_lower c = if leb 65 c && leb c 90 then c + 32 else c

-- `value.upper()`
abbrev pub upper : Text → Text
upper s = map to_upper s

-- `value.lower()`
abbrev pub lower : Text → Text
lower s = map to_lower s

-- `value.lstrip()`
unfoldable pub lstrip : Text → Text
lstrip [] = []
lstrip (c ∷ s) = let rest = lstrip s in if is_space c then rest else c ∷ s

abbrev pub keep : ℕ → Text → Text
keep c [] = if is_space c then [] else c ∷ []
keep c (d ∷ r) = c ∷ d ∷ r

-- `value.rstrip()`: a character stays if it is no space, or if one that stays follows it
unfoldable pub rstrip : Text → Text
rstrip [] = []
rstrip (c ∷ s) = keep c (rstrip s)

-- `value.strip()`
unfoldable pub strip : Text → Text
unfolding lstrip rstrip
strip s = rstrip (lstrip s)

-- `not value`, on a text
abbrev pub is_empty : Text → Bool
is_empty [] = true
is_empty (_ ∷ _) = false

-- `value.strip().upper()`, the form in which the program compares sources, streams and symbols
unfoldable pub normalize : Text → Text
unfolding strip to_upper
normalize s = upper (strip s)
