-- ===== src/Api/Chats/Live.antt =====
-- Which running handlers are in the hub, whatever the order in which they run.
use rea_time_chat_g_rpc.Base.{
  ℕ, suc, ◌+◌, ◌<◌, ◌≤◌, ◌≡◌, refl, inl, inr, Bool, false, some, arith, Text, All-get, get_elem?,
  Option-cases,
}
use rea_time_chat_g_rpc.Wire.{StreamSender}
use rea_time_chat_g_rpc.Auth.{Claims}
use rea_time_chat_g_rpc.Hub.{
  Conns, ConnectionHub, int64_mod, new_connection_hub, register, unregister,
}
use rea_time_chat_g_rpc.Hub.Invariant.{new_connection_hub-Inv, next_id-register, next_id-unregister}
use rea_time_chat_g_rpc.Hub.Delivery.{Fates, Visits}
use rea_time_chat_g_rpc.Api.Stores.{UsersStore, MessagesStore}
use rea_time_chat_g_rpc.Api.Requests.{ChatStreamRequest}
use rea_time_chat_g_rpc.Api.Handlers.Chat.{open_conn, close_conn, serve}
use rea_time_chat_g_rpc.Api.Handlers.Chat.Routes.{conn?}
use rea_time_chat_g_rpc.Api.Handlers.Chat.Healthy.{Later, serve-Later}
use rea_time_chat_g_rpc.Api.Chats.{Session, Chats, opened, ended, served, Step, Reach, here, next}
use rea_time_chat_g_rpc.Api.Chats as Chats
use rea_time_chat_g_rpc.Api.Chats.Backed.{new_chats}
use rea_time_chat_g_rpc.Api.Chats.Connected.{
  IsIn, IsConnected, opened-IsConnected, ended-IsConnected, Later-IsConnected,
}

module _ {S : Type 0} (broken : S → Bool) where
  -- A state whose hub has issued at most `n` ids.
  pub record IsLive {W : Type 0} (n : ℕ) (st : Chats S W) : Type 0 where
    pub at : ConnectionHub S
    pub is_at : st.hub ≡ some at
    pub few : at.next_id ≤ n
    pub all_in : IsConnected broken at st.running

module _ (hex : ℕ → Text) {W S : Type 0} (users : UsersStore W) (msgs : MessagesStore W)
    (net : StreamSender S W) (order : Conns S → Conns S) where
  -- The number of steps of a run.
  unfoldable pub steps : {st st' : Chats S W} → Reach hex users msgs net order st st' → ℕ
  steps here = 0
  steps (next r step) = suc (steps r)

  module _ (broken : S → Bool) (fates : Fates net broken) (visits : Visits order) where
    opened-IsLive :
        (n : ℕ) (claims : Claims) (stream : S) (st : Chats S W)
        → suc n < int64_mod
        → IsLive broken n st
        → IsLive broken (suc n) (opened hex users msgs net order claims stream st)
    unfolding opened open_conn
    opened-IsLive n claims stream st room v =
        let h = v.at in
        let small : h.next_id + 1 < int64_mod = omega (arith, v.few) in
        let now_in = opened-IsConnected broken claims stream h st.running small v.all_in in
        record {
          at = (register claims.email stream h).0;
          is_at = rw v.is_at refl;
          few = omega (arith, v.few, next_id-register claims.email stream h v.all_in.kept small);
          all_in = rw v.is_at now_in;
        }

    ended-IsLive :
        (n k : ℕ) (x : Session S) (st : Chats S W)
        → get_elem? st.running k ≡ some x
        → IsLive broken n st
        → IsLive broken n (ended hex users msgs net order k x st)
    unfolding ended close_conn
    ended-IsLive n k x st found v =
        let h = v.at in
        record {
          at = unregister x.claims.email x.conn_id h;
          is_at = rw v.is_at refl;
          few = omega (arith, v.few, next_id-unregister x.claims.email x.conn_id h v.all_in.kept);
          all_in = ended-IsConnected broken k x h st.running found v.all_in;
        }

    served-IsLive :
        (n k : ℕ) (x : Session S) (req : ChatStreamRequest) (at now : ℕ) (st : Chats S W)
        → get_elem? st.running k ≡ some x
        → IsLive broken n st
        → IsLive broken n (served hex users msgs net order k x req at now st)
    unfolding served
    served-IsLive n k x req at now st found v =
        let (stop, hub, w) =
          serve hex users msgs net order x.claims x.stream req at now st.hub st.world in
        let h = v.at in
        let l : Later broken h hub = rw v.is_at (
          serve-Later hex users msgs net order broken fates visits x.claims x.stream req at now h
            st.world v.all_in.kept) in
        let kept : IsLive broken n (record st { hub = hub; world = w }) = record {
          at = l.after;
          is_at = l.is_after;
          few = omega (arith, v.few, l.issued);
          all_in = Later-IsConnected broken h hub st.running l v.all_in;
        } in
        elim (Option-cases stop) [
          | inl e ↦ rw (served, e) kept
          | inr (status, e) ↦
              rw (served, e) (ended-IsLive n k x (record st { hub = hub; world = w }) found kept)
        ]

    more-IsLive : (n : ℕ) (st : Chats S W) → IsLive broken n st → IsLive broken (suc n) st
    more-IsLive n st v = record {
      at = v.at;
      is_at = v.is_at;
      few = omega (arith, v.few);
      all_in = v.all_in;
    }

    Step-IsLive :
        (n : ℕ) {st st' : Chats S W}
        → Step hex users msgs net order st st'
        → suc n < int64_mod
        → IsLive broken n st
        → IsLive broken (suc n) st'
    Step-IsLive n {st} (Chats.opens call claims stream auth) room v =
        opened-IsLive n claims stream st room v
    Step-IsLive n {st} (Chats.serves k x req at now found) room v =
        more-IsLive n _ (served-IsLive n k x req at now st found v)
    Step-IsLive n {st} (Chats.ends k x e found last) room v =
        more-IsLive n _ (ended-IsLive n k x st found v)

    new_chats-IsLive : (w : W) → IsLive broken 0 (new_chats hex users msgs net order w)
    unfolding new_connection_hub
    new_chats-IsLive w = record {
      at = new_connection_hub;
      is_at = refl;
      few = omega arith;
      all_in = record { kept = new_connection_hub-Inv; apart = tt; connected = tt };
    }

    Reach-IsLive :
        (w : W) {st : Chats S W}
        (r : Reach hex users msgs net order (new_chats hex users msgs net order w) st)
        → steps r < int64_mod
        → IsLive broken (steps r) st
    unfolding steps
    Reach-IsLive w here room = new_chats-IsLive w
    Reach-IsLive w (next r step) room =
        Step-IsLive (steps r) step room (Reach-IsLive w r (omega arith))

    -- If `Send` fails exactly on the broken streams and `range` visits each connection once: in whatever
    -- order the handlers of the chat streams run, every running handler whose stream is not broken is in
    -- the hub, under the address of its claims and the id that it was given, as long as there were fewer
    -- than 2 ^ 64 steps.
    pub handlers_connected :
        (w : W) (st : Chats S W)
        (r : Reach hex users msgs net order (new_chats hex users msgs net order w) st) (k : ℕ)
        (x : Session S)
        → steps r < int64_mod
        → get_elem? st.running k ≡ some x
        → broken x.stream ≡ false
        → conn? x.claims.email x.conn_id st.hub ≡ some x.stream
    handlers_connected w st r k x room found well =
        let v = Reach-IsLive w r room in
        let (_, named) = All-get (IsIn broken (v.at)) k x st.running found v.all_in.connected in
        rw v.is_at (named well)
