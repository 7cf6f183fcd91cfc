-- ===== src/Prelude/Codes.antt =====
-- Texts that the program prints and reads: lists of character codes.
use Prim.Native.Nat.{ℕ}
use Prim.Native.Char.{code}
use Prim.Native.String.{String}
use mathlib.Core.Path.{◌≡◌, refl, ap}
use mathlib.Core.Bool.{false}
use mathlib.Core.List.{List, [], ◌∷◌, ◌++◌}
use lewly_pgpyewj.Prelude.Tests.{◌==◌, ==_self, if◌then◌else◌}

abbrev pub Bytes : Type 0
Bytes = List ℕ

-- the codes of a literal
abbrev pub codes : String → Bytes
codes String.[] = []
codes (String.◌∷◌ c s) = code c ∷ codes s

-- the texts one after another
abbrev pub joined : List Bytes → Bytes
joined [] = []
joined (s ∷ ss) = s ++ joined ss

-- no code of the text is `c`
abbrev pub Lacks : ℕ → Bytes → Type 0
Lacks c [] = Unit
Lacks c (x ∷ s) = ((x == c) ≡ false) × Lacks c s

pub Lacks-append : (c : ℕ) (s t : Bytes) → Lacks c s → Lacks c t → Lacks c (s ++ t)
Lacks-append c [] t hs ht = ht
Lacks-append c (x ∷ s) t (hx, hs) ht = (hx, Lacks-append c s t hs ht)

abbrev pub onto_first : ℕ → List Bytes → List Bytes
onto_first x [] = (x ∷ []) ∷ []
onto_first x (s ∷ ss) = (x ∷ s) ∷ ss

-- the parts of a text between the codes `c`
unfoldable pub split_on : ℕ → Bytes → List Bytes
split_on c [] = [] ∷ []
split_on c (x ∷ s) = let rest = split_on c s in if x == c then [] ∷ rest else onto_first x rest

pub split_on-append : (c : ℕ) (s t : Bytes) → Lacks c s → split_on c (s ++ c ∷ t) ≡ s ∷ split_on c t
unfolding split_on
split_on-append c [] t h = rw (==_self c) refl
split_on-append c (x ∷ s) t (hx, hs) = rw hx (ap (onto_first x) (split_on-append c s t hs))

pub split_on-last : (c : ℕ) (s : Bytes) → Lacks c s → split_on c s ≡ s ∷ []
unfolding split_on
split_on-last c [] h = refl
split_on-last c (x ∷ s) (hx, hs) = rw hx (ap (onto_first x) (split_on-last c s hs))
