-- ===== src/Base/Text.antt =====
-- Texts: comparison by `===`, and the tests of the schemas.
use Prim.Native.Nat.{ℕ, ◌+◌, ◌≤◌}
use Prim.Native.Char.{code}
use Prim.Native.String.{String}
use mathlib.Core.Bool.{Bool, true, false, not, ◌&&◌, ◌||◌}
use text.Mathlib.Text.{◌==◌ as str_eq}
use mathlib.Core.Path.{◌≡◌, refl, sym}
use mathlib.Core.Logic.{◌↔◌, inl, inr}
use mathlib.Core.List.{List, [], ◌∷◌, ◌++◌}
use native.Mathlib.Omega.{arith}
use text.Mathlib.TextEquality.{eq_iff}
use reproforge.Base.Lists.{length, length-append, All}
use reproforge.Base.Tests.{Bool-cases, ltb, leb, ◌==◌, if◌then◌else◌}

infix 50 ◌===◌
abbrev pub ◌===◌ : String → String → Bool
s === t = str_eq s t

-- `z.string().min(1)`
abbrev pub is_nonempty : String → Bool
is_nonempty s = not (s === "")

-- `s.length`: the UTF-16 code units.
unfoldable pub utf16_length : String → ℕ
utf16_length String.[] = 0
utf16_length (String.◌∷◌ c s) = (if ltb (code c) 65536 then 1 else 2) + utf16_length s

abbrev is_hex : ℕ → Bool
is_hex c = leb b'0' c && leb c b'9' || leb b'a' c && leb c b'f'

hex_digits : String → Bool
hex_digits String.[] = true
hex_digits (String.◌∷◌ c s) = is_hex (code c) && hex_digits s

-- `/^[a-f0-9]{64}$/`
unfoldable pub is_sha256 : String → Bool
unfolding hex_digits utf16_length
is_sha256 s = hex_digits s && utf16_length s == 64

-- Insertion into a `Set` of texts, in insertion order.
abbrev pub has_text : List String → String → Bool
has_text [] s = false
has_text (t ∷ ts) s = t === s || has_text ts s

unfoldable pub set_add : List String → String → List String
set_add seen s = if has_text seen s then seen else seen ++ s ∷ []

-- `new Set([...seen, ...texts])`
unfoldable pub set_of : List String → List String → List String
unfolding set_add
set_of seen [] = seen
set_of seen (s ∷ texts) = set_of (set_add seen s) texts

length-set_of : (seen texts : List String) → length seen ≤ length (set_of seen texts)
unfolding set_of
length-set_of seen [] = omega arith
length-set_of seen (s ∷ texts) =
    ground (arith, length-set_of (set_add seen s) texts, length-append seen (s ∷ []))

set_of_one :
    (t : String) (texts : List String)
    → (length (set_of (t ∷ []) texts) ≡ 1) ↔ All (λ s. s ≡ t) texts
unfolding set_of
set_of_one t [] = (λ e. tt, λ h. refl)
set_of_one t (s ∷ texts) = elim (Bool-cases (t === s)) [
  | inl same ↦ (
    λ h. (sym ((eq_iff t s).0 same), (set_of_one t texts).0 (ground arith)),
    λ h. ground (arith, (set_of_one t texts).1 h.1),
  )
  | inr other ↦ (
    λ h. absurd (ground (arith, length-set_of (t ∷ s ∷ []) texts)),
    λ h. ground (arith, eq_iff t s),
  )
]

-- A set built from texts has one member exactly if all of them are the first.
pub set_of-single :
    (t : String) (texts : List String)
    → (length (set_of [] (t ∷ texts)) ≡ 1) ↔ All (λ s. s ≡ t) texts
unfolding set_of
set_of-single t texts = set_of_one t texts
