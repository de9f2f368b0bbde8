-- ===== src/Base/Utf8.antt =====
-- Go strings as UTF-8: `utf8.ValidString`, the runes of a `range` loop, and as much of
-- `strings.TrimSpace` and `strings.ToLower` as a comparison with an ASCII word sees.
use safe_file_hub.Base.Lists.{Bytes}
use safe_file_hub.Base.Tests.{ltb, leb, ◌==◌, if◌then◌else◌}
use Prim.Native.Nat.{ℕ, zero, suc, ◌+◌, ◌-◌, ◌*◌}
use mathlib.Core.Bool.{Bool, true, false, ◌&&◌, ◌||◌}
use mathlib.Core.Option.{Option, none, some}
use mathlib.Core.List.{List, [], ◌∷◌, map, reverse}

abbrev pub between : ℕ → ℕ → ℕ → Bool
between lo hi b = leb lo b && leb b hi

abbrev is_continuation : ℕ → Bool
is_continuation b = between 0x80 0xBF b

-- What may follow the first byte: no overlong form, no surrogate, nothing above U+10FFFF.
second_ok : ℕ → ℕ → Bool
second_ok lead b =
    if lead == 0xE0
    then between 0xA0 0xBF b
    else if lead == 0xED
    then between 0x80 0x9F b
    else if lead == 0xF0
    then between 0x90 0xBF b
    else if lead == 0xF4
    then between 0x80 0x8F b
    else is_continuation b

two_bytes : ℕ → Bytes → Option (ℕ × ℕ)
two_bytes lead [] = none
two_bytes lead (b ∷ _) =
    if is_continuation b then some ((lead - 0xC0) * 64 + (b - 0x80), 1) else none

three_bytes : ℕ → Bytes → Option (ℕ × ℕ)
unfolding second_ok
three_bytes lead (b ∷ c ∷ _) =
    if second_ok lead b && is_continuation c
    then some ((lead - 0xE0) * 4096 + (b - 0x80) * 64 + (c - 0x80), 2)
    else none
three_bytes lead _ = none

four_bytes : ℕ → Bytes → Option (ℕ × ℕ)
unfolding second_ok
four_bytes lead (b ∷ c ∷ d ∷ _) =
    if second_ok lead b && (is_continuation c && is_continuation d)
    then some ((lead - 0xF0) * 262144 + (b - 0x80) * 4096 + (c - 0x80) * 64 + (d - 0x80), 3)
    else none
four_bytes lead _ = none

-- The rune that starts with `lead`, and the number of further bytes that it takes.
rune_at : ℕ → Bytes → Option (ℕ × ℕ)
unfolding two_bytes three_bytes four_bytes
rune_at lead rest =
    if ltb lead 0x80
    then some (lead, 0)
    else if between 0xC2 0xDF lead
    then two_bytes lead rest
    else if between 0xE0 0xEF lead
    then three_bytes lead rest
    else if between 0xF0 0xF4 lead
    then four_bytes lead rest
    else none

-- The first argument counts the bytes that belong to the rune before.
unfoldable pub valid_from : ℕ → Bytes → Bool
unfolding rune_at
valid_from k [] = true
valid_from zero (b ∷ s) = elim (rune_at b s) [ none ↦ false | some (_, w) ↦ valid_from w s ]
valid_from (suc k) (b ∷ s) = valid_from k s

-- `utf8.ValidString`
unfoldable pub valid_string : Bytes → Bool
unfolding valid_from
valid_string s = valid_from 0 s

-- A byte that starts no rune is read as U+FFFD.
unfoldable pub runes_from : ℕ → Bytes → List ℕ
unfolding rune_at
runes_from k [] = []
runes_from zero (b ∷ s) = elim (rune_at b s) [
  | none ↦ 0xFFFD ∷ runes_from 0 s
  | some (r, w) ↦ r ∷ runes_from w s
]
runes_from (suc k) (b ∷ s) = runes_from k s

-- `for _, r := range s`
unfoldable pub runes : Bytes → List ℕ
unfolding runes_from
runes s = runes_from 0 s

-- `unicode.IsSpace`
is_space : ℕ → Bool
is_space r =
    between 0x09 0x0D r
    || (r == 0x20
        || (r == 0x85
            || (r == 0xA0
                || (r == 0x1680
                    || (between 0x2000 0x200A r
                        || (r == 0x2028
                            || (r == 0x2029 || (r == 0x202F || (r == 0x205F || r == 0x3000)))))))))

-- `unicode.ToLower` where the result is ASCII: U+0130 and U+212A are the two runes outside ASCII
-- that have one. Any other rune outside ASCII stays outside, and is left alone here.
lower : ℕ → ℕ
lower r =
    if between b'A' b'Z' r
    then r + 32
    else if r == 0x130
    then b'i'
    else if r == 0x212A
    then b'k'
    else r

drop_spaces : List ℕ → List ℕ
unfolding is_space
drop_spaces [] = []
drop_spaces (r ∷ rs) = let rest = drop_spaces rs in if is_space r then rest else r ∷ rs

-- `strings.TrimSpace`, on runes
trim_space : List ℕ → List ℕ
unfolding drop_spaces
trim_space rs = reverse (drop_spaces (reverse (drop_spaces rs)))

-- `strings.ToLower(strings.TrimSpace(s))`, on runes
unfoldable pub normal_word : Bytes → List ℕ
unfolding runes trim_space lower
normal_word s = map lower (trim_space (runes s))
