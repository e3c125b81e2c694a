-- ===== src/Api/Chats/Backed.antt =====
-- Whose connections the hub holds, whatever the order in which the handlers run.
use rea_time_chat_g_rpc.Base.{
  ℕ, zero, suc, ◌≡◌, sym, lookup, ◌∙◌, ◌⊎◌, inl, inr, Option, none, some, List, [], ◌∷◌, arith,
  Text, Option-cases, get_elem?, without,
}
use rea_time_chat_g_rpc.Wire.{StreamSender}
use rea_time_chat_g_rpc.Auth.{Claims}
use rea_time_chat_g_rpc.Hub.{Conns, ConnectionHub, new_connection_hub, conn}
use rea_time_chat_g_rpc.Hub.Routing.{register-id, conn-register, conn-unregister}
use rea_time_chat_g_rpc.Api.Stores.{UsersStore, MessagesStore}
use rea_time_chat_g_rpc.Api.Requests.{ChatStreamRequest}
use rea_time_chat_g_rpc.Api.Handlers.Chat.{open_conn, close_conn, serve}
use rea_time_chat_g_rpc.Api.Handlers.Chat.Routes.{conn?, Shrinks, serve-Shrinks}
use rea_time_chat_g_rpc.Api.Chats.{Session, Chats, opened, ended, served, Step, Reach, here, next}
use rea_time_chat_g_rpc.Api.Chats as Chats

-- A running handler has this connection.
abbrev pub IsOpen : {S : Type 0} → Text → ℕ → S → List (Session S) → Type 0
IsOpen e i s [] = ⊥
IsOpen e i s (x ∷ xs) = ((x.claims.email ≡ e) × (x.conn_id ≡ i) × (x.stream ≡ s)) ⊎ IsOpen e i s xs

-- Every connection of the hub is that of an running handler.
abbrev pub IsBacked : {S W : Type 0} → Chats S W → Type 0
IsBacked {S} st = (e : Text) (i : ℕ) (s : S) → conn? e i st.hub ≡ some s → IsOpen e i s st.running

IsOpen-without :
    {S : Type 0} (e : Text) (i : ℕ) (s : S) (n : ℕ) (x : Session S) (xs : List (Session S))
    → get_elem? xs n ≡ some x
    → IsOpen e i s xs
    → ((x.claims.email ≡ e) × (x.conn_id ≡ i)) ⊎ IsOpen e i s (without n xs)
IsOpen-without e i s n x [] found o = absurd o
IsOpen-without e i s zero x (y ∷ xs) found (inl (mail, id, stream)) =
    inl (ground arith, ground arith)
IsOpen-without e i s zero x (y ∷ xs) found (inr o) = inr o
IsOpen-without e i s (suc n) x (y ∷ xs) found (inl same) = inr (inl same)
IsOpen-without e i s (suc n) x (y ∷ xs) found (inr o) = elim (IsOpen-without e i s n x xs found o) [
  | inl same ↦ inl same
  | inr rest ↦ inr (inr rest)
]

module _ {S : Type 0} (e : Text) (i : ℕ) (s : S) where
  conn?-open_conn :
      (mail : Text) (stream : S) (hub : Option (ConnectionHub S))
      → let (hub', id) = open_conn mail stream hub in
        conn? e i hub' ≡ some s → ((mail ≡ e) × (id ≡ i) × (stream ≡ s)) ⊎ (conn? e i hub ≡ some s)
  unfolding open_conn
  conn?-open_conn mail stream none there = inr there
  conn?-open_conn mail stream (some h) there =
      ground (arith, conn-register mail e i stream h, register-id mail stream h)

  conn?-close_conn :
      (mail : Text) (id : ℕ) (hub : Option (ConnectionHub S))
      → conn? e i (close_conn mail id hub) ≡ some s
      → (((mail ≡ e) × (id ≡ i)) → ⊥) × (conn? e i hub ≡ some s)
  unfolding close_conn
  conn?-close_conn mail id none there = absurd (ground arith)
  conn?-close_conn mail id (some h) there = (
    λ same. (ground (arith, conn-unregister mail e id i h, same.0, same.1)),
    ground (arith, conn-unregister mail e id i h),
  )

module _ (hex : ℕ → Text) {W S : Type 0} (users : UsersStore W) (msgs : MessagesStore W)
    (net : StreamSender S W) (order : Conns S → Conns S) where
  opened-IsBacked :
      (claims : Claims) (stream : S) (st : Chats S W)
      → IsBacked st
      → IsBacked (opened hex users msgs net order claims stream st)
  unfolding opened
  opened-IsBacked claims stream st v e i s there =
      elim (conn?-open_conn e i s claims.email stream st.hub there) [
        | inl new ↦ inl new
        | inr before ↦ inr (v e i s before)
      ]

  ended-IsBacked :
      (n : ℕ) (x : Session S) (st : Chats S W)
      → get_elem? st.running n ≡ some x
      → IsBacked st
      → IsBacked (ended hex users msgs net order n x st)
  unfolding ended
  ended-IsBacked n x st found v e i s there =
      let (other, before) = conn?-close_conn e i s x.claims.email x.conn_id st.hub there in
      elim (IsOpen-without e i s n x st.running found (v e i s before)) [
        | inl same ↦ absurd (other same)
        | inr rest ↦ rest
      ]

  -- A hub with fewer connections is backed by the same handlers.
  Shrinks-IsBacked :
      (st : Chats S W) (hub : Option (ConnectionHub S)) (w : W)
      → Shrinks st.hub hub
      → IsBacked st
      → IsBacked (record st { hub = hub; world = w })
  Shrinks-IsBacked st hub w fewer v e i s there = elim (fewer e i) [
    | inl same ↦ v e i s (sym same ∙ there)
    | inr gone ↦ absurd (ground (arith, gone, there))
  ]

  served-IsBacked :
      (n : ℕ) (x : Session S) (req : ChatStreamRequest) (at now : ℕ) (st : Chats S W)
      → get_elem? st.running n ≡ some x
      → IsBacked st
      → IsBacked (served hex users msgs net order n x req at now st)
  unfolding served
  served-IsBacked n x req at now st found v =
      let (stop, hub, w) =
        serve hex users msgs net order x.claims x.stream req at now st.hub st.world in
      let fewer =
        serve-Shrinks hex users msgs net order x.claims x.stream req at now st.hub st.world in
      let kept = Shrinks-IsBacked st hub w fewer v in
      elim (Option-cases stop) [
        | inl e ↦ rw (served, e) kept
        | inr (status, e) ↦
            rw (served, e) (ended-IsBacked n x (record st { hub = hub; world = w }) found kept)
      ]

  Step-IsBacked :
      {st st' : Chats S W} → Step hex users msgs net order st st' → IsBacked st → IsBacked st'
  Step-IsBacked {st} (Chats.opens call claims stream auth) v = opened-IsBacked claims stream st v
  Step-IsBacked {st} (Chats.serves n x req at now found) v =
      served-IsBacked n x req at now st found v
  Step-IsBacked {st} (Chats.ends n x e found last) v = ended-IsBacked n x st found v

  Reach-IsBacked :
      {st st' : Chats S W} → Reach hex users msgs net order st st' → IsBacked st → IsBacked st'
  Reach-IsBacked here v = v
  Reach-IsBacked (next r step) v = Step-IsBacked step (Reach-IsBacked r v)

  -- Before the first call.
  abbrev pub new_chats : W → Chats S W
  new_chats w = record { hub = some new_connection_hub; world = w; running = [] }

  new_chats-IsBacked : (w : W) → IsBacked (new_chats w)
  unfolding new_connection_hub conn lookup
  new_chats-IsBacked w e i s there = absurd (ground arith)

  -- Whatever chat streams come and go, and in whatever order their handlers take their rounds: every
  -- connection in the hub is that of a handler that is still running, with its stream, under the address of
  -- its claims and the id that it was given.
  pub connections_run :
      (w : W) (st : Chats S W)
      → Reach hex users msgs net order (new_chats w) st
      → (e : Text) (i : ℕ) (s : S) → conn? e i st.hub ≡ some s
      → IsOpen e i s st.running
  connections_run w st reach = Reach-IsBacked reach (new_chats-IsBacked w)
