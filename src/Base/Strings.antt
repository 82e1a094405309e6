-- ===== src/Base/Strings.antt =====
-- Texts as lists of bytes, and the functions of Go's package strings that the program calls on them.
-- The texts are ASCII: blanks and letters outside it are not told apart from other bytes.
use Prim.Native.Char.{code}
use Prim.Native.Nat.{ℕ, zero, suc, ◌+◌, ◌-◌}
use Prim.Native.String.{String}
use mathlib.Core.Path.{◌≡◌, refl}
use native.Mathlib.Omega.{arith}
use mathlib.Core.Bool.{Bool, true, false, ◌&&◌, ◌||◌}
use mathlib.Core.Option.{Option, none, some}
use mathlib.Core.List.{List, [], ◌∷◌, ◌++◌}
use mailvault.Base.Tests.{leb, ◌==◌, if◌then◌else◌}
use mailvault.Base.Lists.{length}

abbrev pub Bytes : Type 0
Bytes = List ℕ

abbrev pub codes : String → Bytes
codes String.[] = []
codes (String.◌∷◌ c s) = code c ∷ codes s

-- s == t
abbrev pub same_text : Bytes → Bytes → Bool
same_text [] [] = true
same_text [] (d ∷ t) = false
same_text (c ∷ s) [] = false
same_text (c ∷ s) (d ∷ t) = (c == d) && same_text s t

pub same_text_refl : (s : Bytes) → same_text s s ≡ true
same_text_refl [] = refl
same_text_refl (c ∷ s) = ground (arith, same_text_refl s)

pub same_text→eq : (s t : Bytes) → same_text s t ≡ true → s ≡ t
same_text→eq [] [] h = refl
same_text→eq [] (d ∷ t) h = absurd (cc)
same_text→eq (c ∷ s) [] h = absurd (cc)
same_text→eq (c ∷ s) (d ∷ t) h = ground (arith, same_text→eq s t)

-- unicode.IsSpace
abbrev pub is_space : ℕ → Bool
is_space c = leb 9 c && leb c 13 || c == b' '

abbrev to_lower_byte : ℕ → ℕ
to_lower_byte c = if leb b'A' c && leb c b'Z' then c + 32 else c

unfoldable pub to_lower : Bytes → Bytes
to_lower [] = []
to_lower (c ∷ s) = to_lower_byte c ∷ to_lower s

unfoldable pub has_prefix : Bytes → Bytes → Bool
has_prefix s [] = true
has_prefix [] (d ∷ p) = false
has_prefix (c ∷ s) (d ∷ p) = (c == d) && has_prefix s p

-- strings.Contains of a text of one byte, strings.ContainsRune and the like.
unfoldable pub contains : Bytes → ℕ → Bool
contains [] d = false
contains (c ∷ s) d = c == d || contains s d

-- s[:i] and s[i+1:] at strings.Index(s, d), or none for -1.
unfoldable pub cut : Bytes → ℕ → Option (Bytes × Bytes)
cut [] d = none
cut (c ∷ s) d = if c == d then some ([], s) else extend (cut s d)
  where
    extend : Option (Bytes × Bytes) → Option (Bytes × Bytes)
    extend none = none
    extend (some (before, after)) = some (c ∷ before, after)

-- Trims at the left and the right the bytes that pass the test.
unfoldable pub trim_left : (ℕ → Bool) → Bytes → Bytes
trim_left p [] = []
trim_left p (c ∷ s) = if p c then trim_left p s else c ∷ s

-- c ∷ s when s has been trimmed.
abbrev pub trimmed : (ℕ → Bool) → ℕ → Bytes → Bytes
trimmed p c [] = if p c then [] else c ∷ []
trimmed p c (d ∷ t) = c ∷ d ∷ t

unfoldable pub trim_right : (ℕ → Bool) → Bytes → Bytes
trim_right p [] = []
trim_right p (c ∷ s) = trimmed p c (trim_right p s)

unfoldable pub trim : (ℕ → Bool) → Bytes → Bytes
trim p s = trim_right p (trim_left p s)

-- The last byte of a text, if it has one; HasSuffix of a text of one byte looks at it.
unfoldable pub ends_in : Bytes → ℕ → Bool
ends_in [] d = false
ends_in (c ∷ []) d = c == d
ends_in (c ∷ e ∷ s) d = ends_in (e ∷ s) d

-- strings.Split at a byte: never empty.
unfoldable pub split : Bytes → ℕ → Bytes × List Bytes
split [] d = ([], [])
split (c ∷ s) d =
    let (part, rest) = split s d in if c == d then ([], part ∷ rest) else (c ∷ part, rest)

-- strings.Fields: the words between blanks, with `word` begun.
words : Bytes → Bytes → List Bytes
words [] [] = []
words (c ∷ word) [] = (c ∷ word) ∷ []
words [] (d ∷ s) = if is_space d then words [] s else words (d ∷ []) s
words (c ∷ word) (d ∷ s) =
    if is_space d then (c ∷ word) ∷ words [] s else words ((c ∷ word) ++ d ∷ []) s

unfoldable pub fields : Bytes → List Bytes
unfolding words
fields s = words [] s

-- strings.ReplaceAll; `skip` bytes of a place found are left to pass over.
replace_from : ℕ → Bytes → Bytes → Bytes → Bytes
replace_from skip old new [] = []
replace_from (suc skip) old new (c ∷ s) = replace_from skip old new s
replace_from zero old new (c ∷ s) =
    if has_prefix (c ∷ s) old
    then new ++ replace_from (length old - 1) old new s
    else c ∷ replace_from zero old new s

unfoldable pub replace_all : Bytes → Bytes → Bytes → Bytes
unfolding replace_from
replace_all s old new = replace_from zero old new s

-- strings.Join
unfoldable pub join : List Bytes → Bytes → Bytes
join [] sep = []
join (s ∷ []) sep = s
join (s ∷ t ∷ rest) sep = s ++ sep ++ join (t ∷ rest) sep
