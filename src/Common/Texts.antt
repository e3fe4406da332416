-- ===== src/Common/Texts.antt =====
-- Texts as lists of characters, by their numbers, and what the program tests of them.
use Prim.Native.Nat.{ℕ}
use mathlib.Core.Bool.{Bool, true, ◌&&◌, ◌||◌}
use mathlib.Core.List.{List, [], ◌∷◌}
use etf_platform_paper_mode.Common.Tests.{◌==◌, leb}

-- A `str`, as the numbers of its characters.
abbrev pub Text : Type 0
Text = List ℕ

-- `str.strip` removes these characters.
abbrev pub is_space : ℕ → Bool
is_space c =
    (leb 9 c && leb c 13)
    || (leb 28 c && leb c 32)
    || c == 0x85
    || c == 0xA0
    || c == 0x1680
    || (leb 0x2000 c && leb c 0x200A)
    || c == 0x2028
    || c == 0x2029
    || c == 0x202F
    || c == 0x205F
    || c == 0x3000

-- `not text or not text.strip()`
abbrev pub is_blank : Text → Bool
is_blank [] = true
is_blank (c ∷ cs) = is_space c && is_blank cs
