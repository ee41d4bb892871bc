-- ===== src/Prelude/Strings.antt =====
-- Python's `str` as the list of its code points, with the methods that the program calls.
use Prim.Native.Nat.{ℕ}
use Prim.Native.Char.{code}
use Prim.Native.String.{String}
use mathlib.Core.List.{List, [], ◌∷◌, reverse}
use mathlib.Core.Bool.{Bool, true, false, ◌&&◌, ◌||◌}
use isales_engine.Prelude.Tests.{leb, if◌then◌else◌}
use isales_engine.Prelude.Equality.{◌==◌, mem, nat_eq}
use isales_engine.Prelude.Lists.{drop_while, drop_while_end}

abbrev pub Text : Type 0
Text = List ℕ

-- A literal.
abbrev pub text : String → Text
text String.[] = []
text (String.◌∷◌ c s) = code c ∷ text s

-- `str.isspace` of one character: what `str.strip` and `str.split` remove.
unfoldable pub is_space : ℕ → Bool
is_space c =
    (leb 0x9 c && leb c 0xd)
    || ((leb 0x1c c && leb c 0x20)
        || ((c == 0x85)
            || ((c == 0xa0)
                || ((c == 0x1680)
                    || ((leb 0x2000 c && leb c 0x200a)
                        || ((c == 0x2028)
                            || ((c == 0x2029)
                                || ((c == 0x202f) || ((c == 0x205f) || (c == 0x3000))))))))))

-- `s.strip()`
abbrev pub strip : Text → Text
strip s = drop_while_end is_space (drop_while is_space s)

-- `s.strip(chars)`
abbrev pub strip_chars : Text → Text → Text
strip_chars chars s = drop_while_end (λ c. mem c chars) (drop_while (λ c. mem c chars) s)

-- `s.startswith(p)`
abbrev pub starts_with : Text → Text → Bool
starts_with [] s = true
starts_with (p ∷ ps) [] = false
starts_with (p ∷ ps) (c ∷ s) = if p == c then starts_with ps s else false

-- `p in s`
abbrev pub contains : Text → Text → Bool
contains p [] = starts_with p []
contains p (c ∷ s) = if starts_with p (c ∷ s) then true else contains p s

-- `s.endswith(p)`
abbrev pub ends_with : Text → Text → Bool
ends_with p s = starts_with (reverse p) (reverse s)

-- `bool(s)`
abbrev pub non_empty {ℓ} : {A : Type ℓ} → List A → Bool
non_empty [] = false
non_empty (x ∷ xs) = true
