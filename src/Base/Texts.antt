-- ===== src/Base/Texts.antt =====
-- Texts by their code points, where the program walks characters: the tests of Rust's `char` and
-- `str` that it uses.
use Prim.Native.Char.{code}
use Prim.Native.Nat.{ℕ, ◌+◌}
use Prim.Native.String.{String}
use mathlib.Core.Bool.{Bool, true, false, ◌&&◌, ◌||◌}
use mathlib.Core.Path.{◌≡◌, refl, ap, ◌∙◌}
use native.Mathlib.Omega.{arith}
use mathlib.Core.Option.{Option, none, some}
use mathlib.Core.List.{List, [], ◌∷◌, map}
use i_mail.Base.Tests.{leb, ltb, ◌==◌, if◌then◌else◌}
use i_mail.Base.Lists.{all}

-- A text as its code points.
abbrev pub Text : Type 0
Text = List ℕ

abbrev pub codes : String → Text
codes String.[] = []
codes (String.◌∷◌ c s) = code c ∷ codes s

-- `char::is_whitespace`: the property White_Space.
unfoldable pub is_whitespace : ℕ → Bool
is_whitespace c =
    (leb 9 c && leb c 13)
    || c == 32
    || c == 0x85
    || c == 0xA0
    || c == 0x1680
    || (leb 0x2000 c && leb c 0x200A)
    || c == 0x2028
    || c == 0x2029
    || c == 0x202F
    || c == 0x205F
    || c == 0x3000

-- `char::is_control`: the category Cc.
unfoldable pub is_control : ℕ → Bool
is_control c = ltb c 32 || (leb 127 c && ltb c 160)

-- `str.trim().is_empty()`
unfoldable pub is_blank : Text → Bool
unfolding is_whitespace
is_blank s = all is_whitespace s

abbrev pub lower_ascii : ℕ → ℕ
lower_ascii c = if leb 65 c && leb c 90 then c + 32 else c

abbrev pub text_eq : Text → Text → Bool
text_eq [] [] = true
text_eq [] (_ ∷ _) = false
text_eq (_ ∷ _) [] = false
text_eq (a ∷ s) (b ∷ t) = a == b && text_eq s t

abbrev pub is_prefix : Text → Text → Bool
is_prefix [] t = true
is_prefix (_ ∷ _) [] = false
is_prefix (a ∷ s) (b ∷ t) = a == b && is_prefix s t

-- SQLite's `column LIKE 'prefix%'` for a prefix in lower case: ASCII letters match in either case.
abbrev pub like_prefix : String → String → Bool
like_prefix prefix s = is_prefix (codes prefix) (map lower_ascii (codes s))

-- A character before a text whose end is trimmed.
unfoldable pub push_end : ℕ → Text → Text
push_end c [] = if is_whitespace c then [] else c ∷ []
push_end c (d ∷ s) = c ∷ d ∷ s

-- `str.trim_end()`
abbrev pub trim_end : Text → Text
trim_end [] = []
trim_end (c ∷ s) = push_end c (trim_end s)

-- `str.trim_start()`
abbrev pub trim_start : Text → Text
trim_start [] = []
trim_start (c ∷ s) = let rest = trim_start s in if is_whitespace c then rest else c ∷ s

abbrev pub trim : Text → Text
trim s = trim_end (trim_start s)

-- `encode_utf16().count()`
abbrev pub utf16_len : Text → ℕ
utf16_len [] = 0
utf16_len (c ∷ s) = (if ltb c 0x10000 then 1 else 2) + utf16_len s

-- `str.len()`, the bytes of the UTF-8 text.
abbrev pub byte_len : Text → ℕ
byte_len [] = 0
byte_len (c ∷ s) =
    (if ltb c 0x80 then 1 else if ltb c 0x800 then 2 else if ltb c 0x10000 then 3 else 4)
    + byte_len s

-- One step of `rsplit_once`, from its answer on the rest of the text.
abbrev pub rsplit_step : ℕ → ℕ → Text → Option (Text × Text) → Option (Text × Text)
rsplit_step sep c s (some (a, b)) = some (c ∷ a, b)
rsplit_step sep c s none = if c == sep then some ([], s) else none

-- `rsplit_once(sep)`: at the last separator.
abbrev pub rsplit_once : ℕ → Text → Option (Text × Text)
rsplit_once sep [] = none
rsplit_once sep (c ∷ s) = rsplit_step sep c s (rsplit_once sep s)

abbrev pub push_part : ℕ → List Text → List Text
push_part c [] = (c ∷ []) ∷ []
push_part c (p ∷ ps) = (c ∷ p) ∷ ps

-- `split(sep)`
abbrev pub split : ℕ → Text → List Text
split sep [] = [] ∷ []
split sep (c ∷ s) = let parts = split sep s in if c == sep then [] ∷ parts else push_part c parts

-- `contains(needle)`
abbrev pub contains : Text → Text → Bool
contains needle [] = is_prefix needle []
contains needle (c ∷ s) = is_prefix needle (c ∷ s) || contains needle s

abbrev pub starts_with : ℕ → Text → Bool
starts_with d [] = false
starts_with d (c ∷ s) = c == d

abbrev pub ends_with : ℕ → Text → Bool
ends_with d [] = false
ends_with d (c ∷ []) = c == d
ends_with d (_ ∷ c ∷ s) = ends_with d (c ∷ s)

abbrev pub eq_ignore_ascii_case : Text → Text → Bool
eq_ignore_ascii_case a b = text_eq (map lower_ascii a) (map lower_ascii b)

-- The order of Rust's texts, by code points as by bytes.
abbrev pub text_before : Text → Text → Bool
text_before [] [] = false
text_before [] (_ ∷ _) = true
text_before (_ ∷ _) [] = false
text_before (a ∷ s) (b ∷ t) = ltb a b || (a == b && text_before s t)

-- Texts that the test holds for are equal.
pub text_eq_sound : (s t : Text) → text_eq s t ≡ true → s ≡ t
text_eq_sound [] [] h = refl
text_eq_sound [] (b ∷ t) h = cc
text_eq_sound (a ∷ s) [] h = cc
text_eq_sound (a ∷ s) (b ∷ t) h =
    let e : a ≡ b = ground (arith, h) in
    let f : s ≡ t = ground (arith, h, text_eq_sound s t) in ap (λ x. x ∷ s) e ∙ ap (λ x. b ∷ x) f

pub text_eq_refl : (s : Text) → text_eq s s ≡ true
text_eq_refl [] = refl
text_eq_refl (a ∷ s) = ground (arith, text_eq_refl s)
