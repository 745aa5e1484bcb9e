-- ===== src/Base/Text.antt =====
-- Texts: code points, the length that the source's `length` counts, character classes.
use Prim.Native.Char.{code}
use Prim.Native.Nat.{ℕ, ◌+◌}
use Prim.Native.String.{String}
use mathlib.Core.Bool.{Bool, ◌&&◌, ◌||◌}
use mathlib.Core.List.{List, [], ◌∷◌}
use encore_mcp_base.Base.Tests.{leb, if◌then◌else◌}
use encore_mcp_base.Base.Lists.{length, all}

abbrev pub codes : String → List ℕ
codes String.[] = []
codes (String.◌∷◌ c s) = code c ∷ codes s

-- `s.length` counts UTF-16 units: two for a code point above 0xffff.
abbrev pub utf16_length : List ℕ → ℕ
utf16_length [] = 0
utf16_length (c ∷ cs) = (if leb c 0xffff then 1 else 2) + utf16_length cs

-- [A-Za-z0-9]
abbrev pub is_alphanumeric : ℕ → Bool
is_alphanumeric c =
    (leb b'A' c && leb c b'Z') || (leb b'a' c && leb c b'z') || (leb b'0' c && leb c b'9')

-- `^[class]{lo,hi}$`
abbrev pub matches_class : (ℕ → Bool) → ℕ → ℕ → String → Bool
matches_class p lo hi s = all p (codes s) && leb lo (length (codes s)) && leb (length (codes s)) hi
