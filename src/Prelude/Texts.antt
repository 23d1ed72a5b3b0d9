-- ===== src/Prelude/Texts.antt =====
-- Membership in a list of texts, and Python's truth of an optional text.
use Prim.Native.Char.{Char, code}
use Prim.Native.Nat.{ℕ, zero, suc, ◌-◌, ◌/◌, ◌%◌}
use Prim.Native.String.{String, char_at}
use mathlib.Core.Bool.{Bool, true, false, not, ◌||◌, ◌&&◌}
use mathlib.Core.List.{List, [], ◌∷◌}
use mathlib.Core.Option.{Option, none, some}
use text.Mathlib.Text.{◌==◌}
use rca_claude_agent.Prelude.Tests.{leb, ◌=ℕ◌, if◌then◌else◌}

-- `s in xs`
abbrev pub contains : List String → String → Bool
contains [] s = false
contains (x ∷ xs) s = (x == s) || contains xs s

-- `bool(t.get(field))` of a text column: neither NULL nor the empty text
abbrev pub truthy : Option String → Bool
truthy none = false
truthy (some s) = not (s == "")

-- `list(dict.fromkeys(xs))`: the first of each, in order
abbrev pub dedupe_from : List String → List String → List String
dedupe_from seen [] = []
dedupe_from seen (x ∷ xs) =
    let fresh = x ∷ dedupe_from (x ∷ seen) xs in
    let rest = dedupe_from seen xs in if contains seen x then rest else fresh

abbrev pub dedupe : List String → List String
dedupe xs = dedupe_from [] xs

-- The code points of a text.
abbrev pub codes : String → List ℕ
codes String.[] = []
codes (String.◌∷◌ c s) = code c ∷ codes s

-- `str.isspace` of one character
abbrev pub is_space : ℕ → Bool
is_space c =
    (leb 9 c && leb c 13)
    || (leb 28 c && leb c 32)
    || (leb 8192 c && leb c 8202)
    || (c =ℕ 133)
    || (c =ℕ 160)
    || (c =ℕ 5760)
    || (c =ℕ 8232)
    || (c =ℕ 8233)
    || (c =ℕ 8239)
    || (c =ℕ 8287)
    || (c =ℕ 12288)

-- `s.lstrip()`
unfoldable pub lstrip : String → String
lstrip String.[] = String.[]
lstrip (String.◌∷◌ c s) = let rest = lstrip s in if is_space (code c) then rest else String.◌∷◌ c s

-- `s.rstrip()`
unfoldable pub rstrip : String → String
rstrip String.[] = String.[]
rstrip (String.◌∷◌ c s) =
    let rest = rstrip s in
    if is_space (code c) && (rest == String.[]) then String.[] else String.◌∷◌ c rest

-- `s.strip()`
unfoldable pub strip : String → String
unfolding lstrip rstrip
strip s = rstrip (lstrip s)

-- `s[:n]`
unfoldable pub cut : ℕ → String → String
cut zero s = String.[]
cut (suc n) String.[] = String.[]
cut (suc n) (String.◌∷◌ c s) = String.◌∷◌ c (cut n s)

-- `s.lower()`: the ASCII letters, and the Kelvin sign, the one other character that Python turns
-- into an ASCII letter alone
abbrev pub lower_char : Char → Char
lower_char c =
    if leb 65 (code c) && leb (code c) 90
    then char_at "abcdefghijklmnopqrstuvwxyz" (code c - 65)
    else if code c =ℕ 8490
    then "k"
    else c

unfoldable pub lower : String → String
lower String.[] = String.[]
lower (String.◌∷◌ c s) = String.◌∷◌ (lower_char c) (lower s)

-- every character of the text
abbrev pub all_chars : (ℕ → Bool) → String → Bool
all_chars p String.[] = true
all_chars p (String.◌∷◌ c s) = p (code c) && all_chars p s

-- `len(s)`
abbrev pub size : String → ℕ
size String.[] = 0
size (String.◌∷◌ c s) = suc (size s)

decimal_from : ℕ → ℕ → String → String
decimal_from zero n rest = rest
decimal_from (suc fuel) n rest =
    let now = String.◌∷◌ (char_at "0123456789" (n % 10)) rest in
    let longer = decimal_from fuel (n / 10) now in if n / 10 =ℕ 0 then now else longer

-- `str(n)` for a number of at most twenty digits
unfoldable pub decimal : ℕ → String
unfolding decimal_from
decimal n = decimal_from 20 n String.[]
