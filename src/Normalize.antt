-- ===== src/Normalize.antt =====
-- internal/normalize/normalize.go, with what it calls of Go's `strings`. A string is the list of
-- its code points; Unicode's case table beyond ASCII is the parameter `CaseTable`.
pub mod Laws
mod Tests
use rea_time_chat_g_rpc.Base.{
  ℕ, ◌+◌, ◌≡◌, ◌≤◌, Bool, ◌&&◌, ◌||◌, List, [], ◌∷◌, map, Text, ltb, leb, ◌==◌, if◌then◌else◌,
}

-- `unicode.ToLower` on the code points above 127.
pub record CaseTable : Type 0 where
  pub lower : ℕ → ℕ

-- `unicode.IsSpace`
pub is_space : ℕ → Bool
is_space c =
    (leb 9 c && leb c 13)
    || c == 32
    || c == 0x85
    || c == 0xa0
    || c == 0x1680
    || (leb 0x2000 c && leb c 0x200a)
    || c == 0x2028
    || c == 0x2029
    || c == 0x202f
    || c == 0x205f
    || c == 0x3000

pub trim_left : Text → Text
unfolding is_space
trim_left [] = []
trim_left (c ∷ s) = if is_space c then trim_left s else c ∷ s

-- puts `c` before a text whose end is trimmed
pub cons_trimmed : ℕ → Text → Text
unfolding is_space
cons_trimmed c [] = if is_space c then [] else c ∷ []
cons_trimmed c (d ∷ s) = c ∷ d ∷ s

pub trim_right : Text → Text
unfolding cons_trimmed
trim_right [] = []
trim_right (c ∷ s) = cons_trimmed c (trim_right s)

-- `strings.TrimSpace`
unfoldable pub trim_space : Text → Text
unfolding trim_left trim_right
trim_space s = trim_right (trim_left s)

unfoldable pub lower_rune : CaseTable → ℕ → ℕ
lower_rune t c = if ltb c 128 then if leb b'A' c && leb c b'Z' then c + 32 else c else t.lower c

-- `strings.ToLower`
pub to_lower : CaseTable → Text → Text
unfolding lower_rune
to_lower t s = map (lower_rune t) s

-- `normalize.Email`
unfoldable pub email : CaseTable → Text → Text
unfolding to_lower trim_space
email t e = to_lower t (trim_space e)

-- What Unicode says of the table: lower case is lower case, and only spaces give spaces.
pub record IsCaseTable (t : CaseTable) : Type 0 where
  pub lower_idem : (c : ℕ) → 128 ≤ c → lower_rune t (t.lower c) ≡ t.lower c
  pub lower_space : (c : ℕ) → 128 ≤ c → is_space (t.lower c) ≡ is_space c
