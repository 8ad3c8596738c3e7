-- ===== src/Shared/Text.antt =====
-- What the code uses of Go's package `strings`. `ToLower` is that of ASCII: the other letters that
-- have a lower case stay as they are.
use Prim.Native.Nat.{ℕ, ◌-◌}
use Prim.Native.Char.{Char, code}
use Prim.Native.String.{String, [], ◌∷◌, len, slice, char_at}
use mathlib.Core.Path.{◌≡◌, refl}
use mathlib.Core.Bool.{Bool, true, false, ◌&&◌, ◌||◌}
use mathlib.Core.Option.{none, some}
use text.Mathlib.Text.{◌==◌, find?}
use admirald.Shared.Tests.{leb, nat_beq, if◌then◌else◌}

-- `unicode.IsSpace`
abbrev pub is_space : ℕ → Bool
is_space c =
    leb 9 c && leb c 13
    || nat_beq c 32
    || nat_beq c 133
    || nat_beq c 160
    || nat_beq c 5760
    || leb 8192 c && leb c 8202
    || nat_beq c 8232
    || nat_beq c 8233
    || nat_beq c 8239
    || nat_beq c 8287
    || nat_beq c 12288

-- The text without the characters at its beginning that pass a test.
unfoldable pub trim_left_if : (ℕ → Bool) → String → String
trim_left_if p [] = []
trim_left_if p (c ∷ s) = let rest = trim_left_if p s in if p (code c) then rest else c ∷ s

-- The same at its end.
unfoldable pub trim_right_if : (ℕ → Bool) → String → String
trim_right_if p [] = []
trim_right_if p (c ∷ s) =
    let rest = trim_right_if p s in if (rest == "") && p (code c) then [] else c ∷ rest

-- `strings.TrimSpace`
unfoldable pub trim_space : String → String
unfolding trim_left_if trim_right_if
trim_space s = trim_right_if is_space (trim_left_if is_space s)

abbrev pub is_upper : ℕ → Bool
is_upper c = leb 65 c && leb c 90

abbrev pub is_lower : ℕ → Bool
is_lower c = leb 97 c && leb c 122

abbrev pub is_digit : ℕ → Bool
is_digit c = leb 48 c && leb c 57

abbrev lower_char : Char → Char
lower_char c = if is_upper (code c) then char_at "abcdefghijklmnopqrstuvwxyz" (code c - 65) else c

-- `strings.ToLower`
unfoldable pub to_lower : String → String
to_lower [] = []
to_lower (c ∷ s) = lower_char c ∷ to_lower s

-- `strings.HasSuffix`
abbrev pub has_suffix : String → String → Bool
has_suffix s t = leb (len t) (len s) && slice s (len s - len t) (len s) == t

-- `strings.Contains`
abbrev pub contains : String → String → Bool
contains s t = elim (find? s t) [ none ↦ false | some at ↦ true ]

-- Whether all characters pass a test, and whether one does.
unfoldable pub all_chars : (ℕ → Bool) → String → Bool
all_chars p [] = true
all_chars p (c ∷ s) = p (code c) && all_chars p s

unfoldable pub any_char : (ℕ → Bool) → String → Bool
any_char p [] = false
any_char p (c ∷ s) = p (code c) || any_char p s

-- A text that matches `^[A][B]*$`, where the classes of characters are tests.
unfoldable pub named_like : (ℕ → Bool) → (ℕ → Bool) → String → Bool
unfolding all_chars
named_like first rest [] = false
named_like first rest (c ∷ s) = first (code c) && all_chars rest s

pub named_like-empty : (first rest : ℕ → Bool) → named_like first rest "" ≡ false
unfolding named_like
named_like-empty first rest = refl
