-- ===== src/Samples.antt =====
-- The concrete parameters that the examples share.
use rea_time_chat_g_rpc.Base.{ℕ, ◌≤◌, ◌≡◌, refl, arith, Text, codes}
use rea_time_chat_g_rpc.Normalize.{CaseTable, IsCaseTable, lower_rune}

-- A case table that knows ASCII alone.
abbrev pub ascii : CaseTable
ascii = record { lower = λ c. c }

ascii-lower_rune : (c : ℕ) → 128 ≤ c → lower_rune ascii c ≡ c
unfolding lower_rune
ascii-lower_rune c h = ground arith

pub ascii-IsCaseTable : IsCaseTable ascii
ascii-IsCaseTable = record { lower_idem = ascii-lower_rune; lower_space = λ c h. refl }

abbrev pub ann : Text
ann = codes "ann@x.org"

abbrev pub bob : Text
bob = codes "bob@x.org"

-- Another spelling of `bob`.
abbrev pub spaced_bob : Text
spaced_bob = codes " Bob@X.org"
