-- ===== src/Common/Trimming.antt =====
-- `trim` of a text, for apps/web/src and apps/api/src/config.ts.
use Prim.Native.String.{[], ◌∷◌}
use Prim.Native.Char.{Char, code}
use Prim.Native.Nat.{ℕ}
use Prim.Native.String.{String}
use mathlib.Core.Bool.{Bool, ◌&&◌, ◌||◌}
use payments_processor.Common.Tests.{leb, ◌==◌, if◌then◌else◌}

-- The white space and the line ends of the language.
abbrev pub is_space : ℕ → Bool
is_space c =
    leb 9 c && leb c 13
    || c == 32
    || c == 160
    || c == 5760
    || leb 8192 c && leb c 8202
    || c == 8232
    || c == 8233
    || c == 8239
    || c == 8287
    || c == 12288
    || c == 65279

abbrev pub drop_spaces : String → String
drop_spaces [] = []
drop_spaces (c ∷ s) = if is_space (code c) then drop_spaces s else c ∷ s

abbrev cut : Char → String → String
cut c [] = if is_space (code c) then [] else c ∷ []
cut c (d ∷ s) = c ∷ d ∷ s

abbrev pub drop_last_spaces : String → String
drop_last_spaces [] = []
drop_last_spaces (c ∷ s) = cut c (drop_last_spaces s)

unfoldable pub trim : String → String
trim s = drop_last_spaces (drop_spaces s)
