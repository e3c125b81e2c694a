-- ===== src/Normalize/Tests.antt =====
-- Two spellings of one address.
use rea_time_chat_g_rpc.Base.{◌≡◌, refl, ◌++◌, codes}
use rea_time_chat_g_rpc.Normalize.{email, is_space, to_lower, lower_rune}
use rea_time_chat_g_rpc.Normalize.Laws.{email_respects}
use rea_time_chat_g_rpc.Samples.{ascii, ascii-IsCaseTable}

email_respects_example :
    email ascii (codes "\t " ++ (codes "BOB" ++ codes " ")) ≡ email ascii (codes "bob")
unfolding is_space to_lower lower_rune
email_respects_example =
    email_respects ascii ascii-IsCaseTable (codes "\t ") (codes " ") (codes "BOB") (codes "bob")
      (refl, (refl, tt)) (refl, tt) refl
