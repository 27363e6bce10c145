-- ===== src/Base/Strings.antt =====
-- Go strings and byte slices: lists of byte values. `codes` reads an ASCII literal.
use Prim.Native.Nat.{ℕ, zero, suc, ◌+◌, ◌/◌, ◌%◌}
use Prim.Native.Char.{code}
use Prim.Native.String.{String}
use mathlib.Core.Path.{◌≡◌, refl}
use mathlib.Core.Bool.{Bool, true, false, ◌&&◌, ◌||◌}
use mathlib.Core.Logic.{◌↔◌}
use mathlib.Core.List.{List, [], ◌∷◌, ◌++◌}
use native.Mathlib.Omega.{arith}
use issue.Base.Tests.{◌==◌, ltb, if◌then◌else◌}

abbrev pub Bytes : Type 0
Bytes = List ℕ

abbrev pub codes : String → Bytes
codes String.[] = []
codes (String.◌∷◌ c s) = code c ∷ codes s

-- Go's `==` on strings.
infix 50 ◌=ᵇ◌
unfoldable pub ◌=ᵇ◌ : Bytes → Bytes → Bool
[] =ᵇ [] = true
[] =ᵇ (y ∷ ys) = false
(x ∷ xs) =ᵇ [] = false
(x ∷ xs) =ᵇ (y ∷ ys) = x == y && xs =ᵇ ys

pub =ᵇ_iff : (s t : Bytes) → ((s =ᵇ t) ≡ true) ↔ (s ≡ t)
unfolding ◌=ᵇ◌
=ᵇ_iff [] [] = ground arith
=ᵇ_iff [] (y ∷ t) = ground arith
=ᵇ_iff (x ∷ s) [] = ground arith
=ᵇ_iff (x ∷ s) (y ∷ t) = ground (arith, =ᵇ_iff s t)

pub =ᵇ_refl : (s : Bytes) → (s =ᵇ s) ≡ true
=ᵇ_refl s = (=ᵇ_iff s s).1 refl

pub =ᵇ_comm : (s t : Bytes) → (s =ᵇ t) ≡ (t =ᵇ s)
=ᵇ_comm s t = ground (arith, =ᵇ_iff s t, =ᵇ_iff t s)

-- The byte occurs in the string.
unfoldable pub has_byte : ℕ → Bytes → Bool
has_byte b [] = false
has_byte b (c ∷ s) = c == b || has_byte b s

-- The string occurs in the list, which stands for a Go map used as a set.
unfoldable pub member : Bytes → List Bytes → Bool
member k [] = false
member k (j ∷ js) = j =ᵇ k || member k js

-- What stands before the first such byte, and what begins with it.
unfoldable pub before : ℕ → Bytes → Bytes
before b [] = []
before b (c ∷ s) = let rest = before b s in if c == b then [] else c ∷ rest

unfoldable pub from : ℕ → Bytes → Bytes
from b [] = []
from b (c ∷ s) = if c == b then c ∷ s else from b s

-- strings.Split at one byte: the parts between the separators, at least one.
unfoldable pub onto_first : ℕ → List Bytes → List Bytes
onto_first c [] = (c ∷ []) ∷ []
onto_first c (p ∷ ps) = (c ∷ p) ∷ ps

unfoldable pub split : ℕ → Bytes → List Bytes
unfolding onto_first
split sep [] = [] ∷ []
split sep (c ∷ s) = let rest = split sep s in if c == sep then [] ∷ rest else onto_first c rest

-- The decimal digits of a number; the number is fuel enough, as it has fewer digits than units.
digits : ℕ → ℕ → Bytes → Bytes
digits zero n acc = acc
digits (suc fuel) n acc =
    let acc' = (b'0' + n % 10) ∷ acc in
    let rest = digits fuel (n / 10) acc' in if ltb n 10 then acc' else rest

-- `%d` of fmt on a number that is not negative.
unfoldable pub decimal : ℕ → Bytes
unfolding digits
decimal n = digits (suc n) n []

-- strings.HasPrefix, bytes.HasPrefix
unfoldable pub has_prefix : Bytes → Bytes → Bool
has_prefix s [] = true
has_prefix [] (c ∷ p) = false
has_prefix (d ∷ s) (c ∷ p) = d == c && has_prefix s p

-- strings.Contains
unfoldable pub contains : Bytes → Bytes → Bool
unfolding has_prefix
contains [] p = has_prefix [] p
contains (c ∷ s) p = has_prefix (c ∷ s) p || contains s p

-- strings.Join
unfoldable pub join : List Bytes → Bytes → Bytes
join [] sep = []
join (s ∷ []) sep = s
join (s ∷ t ∷ ss) sep = s ++ sep ++ join (t ∷ ss) sep
