-- ===== src/Api/Html.antt =====
-- `html.EscapeString`, as cmd/api/handlers.go applies it to the content of a message.
use rea_time_chat_g_rpc.Base.{
  ℕ, ◌≢◌, [], ◌∷◌, ◌++◌, arith, Text, codes, ◌==◌, if◌then◌else◌, All, All-append,
}

pub escape_rune : ℕ → Text
escape_rune c =
    if c == b'&'
    then codes "&amp;"
    else if c == b'\''
    then codes "&#39;"
    else if c == b'<'
    then codes "&lt;"
    else if c == b'>'
    then codes "&gt;"
    else if c == b'"'
    then codes "&#34;"
    else c ∷ []

unfoldable pub escape_string : Text → Text
unfolding escape_rune
escape_string [] = []
escape_string (c ∷ s) = escape_rune c ++ escape_string s

-- No rune that opens or closes a tag or an attribute's value.
abbrev pub IsInert : ℕ → Type 0
IsInert c = (c ≢ b'<') × (c ≢ b'>') × (c ≢ b'"') × (c ≢ b'\'')

escape_rune-IsInert : (c : ℕ) → All IsInert (escape_rune c)
unfolding escape_rune
escape_rune-IsInert c = ground arith

pub escape_string-IsInert : (s : Text) → All IsInert (escape_string s)
unfolding escape_string
escape_string-IsInert [] = tt
escape_string-IsInert (c ∷ s) =
    All-append IsInert (escape_rune c) (escape_string s) (escape_rune-IsInert c)
      (escape_string-IsInert s)
