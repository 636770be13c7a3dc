-- ===== src/Common/Text.antt =====
-- `str.strip` and `str.lower`, for ASCII texts: other characters are left as they are.
use Prim.Native.Char.{Char, code}
use Prim.Native.String.{String, char_at}
use mathlib.Core.Bool.{Bool, ◌&&◌, ◌||◌}
use Prim.Native.Nat.{◌-◌}
use readyagents_core.Common.Tests.{leb, ◌==◌, if◌then◌else◌}

is_space : Char → Bool
is_space c = code c == 32 || leb 9 (code c) && leb (code c) 13 || leb 28 (code c) && leb (code c) 31

lower_char : Char → Char
lower_char c =
    if leb 65 (code c) && leb (code c) 90
    then char_at "abcdefghijklmnopqrstuvwxyz" (code c - 65)
    else c

unfoldable pub lower : String → String
unfolding lower_char
lower String.[] = ""
lower (String.◌∷◌ c s) = String.◌∷◌ (lower_char c) (lower s)

lstrip : String → String
lstrip String.[] = ""
lstrip (String.◌∷◌ c s) = let rest = lstrip s in if is_space c then rest else String.◌∷◌ c s

-- `c` is dropped when it is a space and nothing but spaces follows it.
keep_left : Char → String → String
keep_left c String.[] = if is_space c then "" else String.◌∷◌ c ""
keep_left c (String.◌∷◌ d s) = String.◌∷◌ c (String.◌∷◌ d s)

rstrip : String → String
rstrip String.[] = ""
rstrip (String.◌∷◌ c s) = keep_left c (rstrip s)

unfoldable pub strip : String → String
unfolding lstrip rstrip keep_left is_space
strip s = rstrip (lstrip s)
