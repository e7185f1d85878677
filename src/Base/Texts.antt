-- ===== src/Base/Texts.antt =====
-- Texts: the comparison of whole texts, and the passage to lists of characters.
use Prim.Native.Char.{Char, code}
use Prim.Native.String.{String, ◌++◌ as ◌++ₛ◌}
use Prim.Native.String.append
use mathlib.Core.Path.{◌≡◌, refl, ap, ◌∙◌}
use mathlib.Core.Bool.{Bool, true}
use mathlib.Core.Logic.{◌↔◌}
use native.Mathlib.Omega.{arith}
use text.Mathlib.TextEquality.{Char-path}
use aadapter.Base.Tests.{◌==◌}
use mathlib.Core.List.{List, [], ◌∷◌, ◌++◌}
use text.Mathlib.Text.{◌==◌ as ◌=ₜ◌}

abbrev pub str_eq : String → String → Bool
str_eq s t = s =ₜ t

abbrev pub chars : String → List Char
chars String.[] = []
chars (String.◌∷◌ c s) = c ∷ chars s

abbrev pub of_chars : List Char → String
of_chars [] = ""
of_chars (c ∷ cs) = String.◌∷◌ c (of_chars cs)

pub chars-of_chars : (cs : List Char) → chars (of_chars cs) ≡ cs
chars-of_chars [] = refl
chars-of_chars (c ∷ cs) = ap (◌∷◌ c) (chars-of_chars cs)

pub of_chars-chars : (s : String) → of_chars (chars s) ≡ s
of_chars-chars String.[] = refl
of_chars-chars (String.◌∷◌ c s) = ap (String.◌∷◌ c) (of_chars-chars s)

pub chars-append : (s t : String) → chars (s ++ₛ t) ≡ chars s ++ chars t
chars-append String.[] t = ap chars (append.nil t)
chars-append (String.◌∷◌ ch s) t =
    ap chars (append.cons ch s t) ∙ ap (λ x. ch ∷ x) (chars-append s t)

-- The equality test of characters.
abbrev pub same_char : Char → Char → Bool
same_char c d = code c == code d

pub same_char_iff : (c d : Char) → (same_char c d ≡ true) ↔ (c ≡ d)
same_char_iff c d = (λ h. Char-path c d (ground arith), λ e. rw e (ground arith))
