-- ===== src/Api/Handlers/Chat/Normal.antt =====
-- Under which addresses chat streams put users into the hub.
use rea_time_chat_g_rpc.Base.{
  ℕ, ◌≡◌, ◌≢◌, sym, ◌∙◌, ap, subst, inl, inr, some, List, [], arith, Text,
}
use rea_time_chat_g_rpc.Normalize.{CaseTable, email}
use rea_time_chat_g_rpc.Wire.{StreamSender}
use rea_time_chat_g_rpc.Auth.{Claims}
use rea_time_chat_g_rpc.Hub.{Conns, ConnectionHub, row}
use rea_time_chat_g_rpc.Hub.Routing.{conn-row, row-conn}
use rea_time_chat_g_rpc.Api.Stores.{UsersStore, MessagesStore}
use rea_time_chat_g_rpc.Api.Interceptors.{Call}
use rea_time_chat_g_rpc.Api.Handlers.Chat.{Recv, chat_stream}
use rea_time_chat_g_rpc.Api.Handlers.Chat.Routes.{conn?, chat_stream-conn}

-- Every connected user is in the hub under a normalized address.
abbrev pub IsNormal : {S : Type 0} → CaseTable → ConnectionHub S → Type 0
IsNormal t h = (e : Text) → row e h.streams ≢ [] → email t e ≡ e

module _ (t : CaseTable) (hex : ℕ → Text) {W S : Type 0} (users : UsersStore W)
    (msgs : MessagesStore W) (net : StreamSender S W) (order : Conns S → Conns S) where
  -- A chat stream whose claims hold a normalized address leaves all users in the hub under normalized
  -- addresses, also while its handler waits.
  pub chat_stream-IsNormal :
      (call : Call) (claims : Claims) (stream : S) (rs : List Recv) (h h' : ConnectionHub S) (w : W)
      → call.claims ≡ some claims
      → email t claims.email ≡ claims.email
      → IsNormal t h
      → (chat_stream hex users msgs net order call stream rs (some h) w).1 ≡ some h'
      → IsNormal t h'
  chat_stream-IsNormal call claims stream rs h h' w auth clean normal left e full =
      let (i, s, there) = row-conn e h' full in
      let named : conn? e i (some h') ≡ some s = there in
      let (_, kept) =
        chat_stream-conn hex users msgs net order call claims stream rs h w e i auth in
      let seen = ap (conn? e i) left ∙ named in
      elim kept [
        | inl (same, _) ↦ subst (λ x. email t x ≡ x) same clean
        | inr (inl before) ↦ normal e (conn-row e i h s (sym before ∙ seen))
        | inr (inr gone) ↦ absurd (ground (arith, seen, gone))
      ]
