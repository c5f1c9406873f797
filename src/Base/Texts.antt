-- ===== src/Base/Texts.antt =====
-- Python's `str` as the list of its code points, and the methods of it that the program calls.
use Prim.Native.Nat.{ℕ, zero, suc, ◌+◌, ◌/◌, ◌%◌}
use Prim.Native.Char.{code}
use Prim.Native.String.{String}
use mathlib.Core.Path.{◌≡◌, refl}
use mathlib.Core.Logic.{◌↔◌}
use mathlib.Core.Bool.{Bool, true, false, ◌&&◌, ◌||◌}
use mathlib.Core.List.{List, [], ◌∷◌, ◌++◌, map}
use mathlib.Core.Option.{Option, none, some}
use native.Mathlib.Omega.{arith}
use marketplace_pipeline.Base.Tests.{if◌then◌else◌, Eq, ltb, leb, nat_eq, is_some}
use marketplace_pipeline.Base.Lists.{take, drop}

abbrev pub Text : Type 0
Text = List ℕ

-- A literal.
abbrev pub codes : String → Text
codes String.[] = []
codes (String.◌∷◌ c s) = code c ∷ codes s

unfoldable pub text_eq : Text → Text → Bool
text_eq [] [] = true
text_eq [] (d ∷ t) = false
text_eq (c ∷ s) [] = false
text_eq (c ∷ s) (d ∷ t) = nat_eq c d && text_eq s t

text_eq_sound : (s t : Text) → text_eq s t ≡ true → s ≡ t
unfolding text_eq
text_eq_sound [] [] h = refl
text_eq_sound [] (d ∷ t) h = ground arith
text_eq_sound (c ∷ s) [] h = ground arith
text_eq_sound (c ∷ s) (d ∷ t) h = ground (arith, text_eq_sound s t)

text_eq_refl : (s : Text) → text_eq s s ≡ true
unfolding text_eq
text_eq_refl [] = refl
text_eq_refl (c ∷ s) = ground (arith, text_eq_refl s)

pub text_eq_iff : (s t : Text) → (text_eq s t ≡ true) ↔ (s ≡ t)
text_eq_iff s t = (text_eq_sound s t, λ e. rw e (text_eq_refl t))

-- A common beginning does not matter.
pub text_eq_prefix : (p a b : Text) → text_eq (p ++ a) (p ++ b) ≡ text_eq a b
unfolding text_eq
text_eq_prefix [] a b = refl
text_eq_prefix (c ∷ p) a b = ground (arith, text_eq_prefix p a b)

instance abbrev pub Text-Eq : Eq Text
Text-Eq = record { beq = text_eq; beq_iff = text_eq_iff }

-- `not s`
abbrev pub is_empty {ℓ} : {A : Type ℓ} → List A → Bool
is_empty [] = true
is_empty (c ∷ s) = false

-- `c.isspace()`
unfoldable pub is_space : ℕ → Bool
is_space c =
    leb 9 c && leb c 13
    || leb 28 c && leb c 32
    || nat_eq c 133
    || nat_eq c 160
    || nat_eq c 5760
    || leb 8192 c && leb c 8202
    || nat_eq c 8232
    || nat_eq c 8233
    || nat_eq c 8239
    || nat_eq c 8287
    || nat_eq c 12288

-- `s.lstrip()`
unfoldable pub lstrip : Text → Text
unfolding is_space
lstrip [] = []
lstrip (c ∷ s) = let rest = lstrip s in if is_space c then rest else c ∷ s

-- `s.rstrip(c)` for the characters that pass the test.
unfoldable pub rstrip_by : (ℕ → Bool) → Text → Text
rstrip_by p [] = []
rstrip_by p (c ∷ s) = let rest = rstrip_by p s in if is_empty rest && p c then [] else c ∷ rest

-- `s.rstrip()`
unfoldable pub rstrip : Text → Text
unfolding rstrip_by is_space
rstrip = rstrip_by is_space

-- `s.strip()`
unfoldable pub strip : Text → Text
unfolding lstrip rstrip
strip s = rstrip (lstrip s)

-- `t.startswith(p)`
unfoldable pub starts_with : Text → Text → Bool
starts_with [] t = true
starts_with (c ∷ p) [] = false
starts_with (c ∷ p) (d ∷ t) = nat_eq c d && starts_with p t

abbrev next_position : Option ℕ → Option ℕ
next_position none = none
next_position (some i) = some (suc i)

-- `t.find(p)`, with `none` for -1.
unfoldable pub find : Text → Text → Option ℕ
unfolding starts_with
find p [] = if starts_with p [] then some 0 else none
find p (c ∷ t) = if starts_with p (c ∷ t) then some 0 else next_position (find p t)

-- `p in t`
unfoldable pub includes : Text → Text → Bool
unfolding find
includes p t = is_some (find p t)

-- `t[a:b]`
unfoldable pub slice : ℕ → ℕ → Text → Text
slice a b t = drop a (take b t)

abbrev cons_first : ℕ → List Text → List Text
cons_first c [] = (c ∷ []) ∷ []
cons_first c (s ∷ parts) = (c ∷ s) ∷ parts

-- `t.split(sep)` at a separator of one character.
unfoldable pub split : ℕ → Text → List Text
split sep [] = [] ∷ []
split sep (c ∷ t) = let rest = split sep t in if nat_eq c sep then [] ∷ rest else cons_first c rest

-- `sep.join(parts)`
unfoldable pub join : Text → List Text → Text
join sep [] = []
join sep (s ∷ []) = s
join sep (s ∷ t ∷ parts) = s ++ (sep ++ join sep (t ∷ parts))

-- `c.lower()` for the letters of ASCII and of the Russian alphabet.
unfoldable pub lower_char : ℕ → ℕ
lower_char c =
    if leb 65 c && leb c 90
    then c + 32
    else if leb 1040 c && leb c 1071
    then c + 32
    else if nat_eq c 1025
    then 1105
    else c

-- `s.lower()`
unfoldable pub lower : Text → Text
unfolding lower_char
lower = map lower_char

-- The digits of `n`, with fuel for as many divisions as the number can take.
decimal_digits : ℕ → ℕ → Text → Text
decimal_digits zero n acc = acc
decimal_digits (suc f) n acc =
    let digit = 48 + n % 10 in
    let rest = decimal_digits f (n / 10) (digit ∷ acc) in if ltb n 10 then digit ∷ acc else rest

-- `str(n)` of a number that is not negative.
unfoldable pub decimal : ℕ → Text
unfolding decimal_digits
decimal n = decimal_digits (suc n) n []
