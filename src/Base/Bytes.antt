-- ===== src/Base/Bytes.antt =====
-- Text as the list of its code points, with a decidable equality.
use Prim.Native.Nat.{ℕ}
use Prim.Native.Char.{code}
use Prim.Native.String.{String}
use mathlib.Core.List.{List, [], ◌∷◌}
use mathlib.Core.Path.{refl}
use mathlib.Core.Bool.{Bool}
use rea_time_chat_g_rpc.Base.Tests.{is_yes}
use native.Mathlib.Decide.{ℕ_discrete}

abbrev pub Text : Type 0
Text = List ℕ

abbrev pub codes : String → Text
codes String.[] = []
codes (String.◌∷◌ c s) = code c ∷ codes s

unfoldable pub text_discrete : Discrete Text
unfolding ℕ_discrete
text_discrete [] [] = yes refl
text_discrete [] (d ∷ t) = no (λ e. cc)
text_discrete (c ∷ s) [] = no (λ e. cc)
text_discrete (c ∷ s) (d ∷ t) = elim (ℕ_discrete c d) [
  | yes p ↦ elim (text_discrete s t) [ yes q ↦ yes (cc) | no n ↦ no (λ e. n (cc)) ]
  | no n ↦ no (λ e. n (cc))
]

-- `s == t` on Go's strings
abbrev pub text_eq : Text → Text → Bool
text_eq s t = is_yes (text_discrete s t)
