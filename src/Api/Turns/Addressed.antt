-- ===== src/Api/Turns/Addressed.antt =====
-- What holds of the maps, of the handlers that go over them, and of what they have sent.
use rea_time_chat_g_rpc.Base.{ℕ, ◌≡◌, inr, none, some, Option, List, ◌∷◌, Text, update, All}
use rea_time_chat_g_rpc.Hub.Shared.{Shared}
use rea_time_chat_g_rpc.Api.Chats.{Session}
use rea_time_chat_g_rpc.Api.Chats.Backed.{IsOpen}
use rea_time_chat_g_rpc.Api.Turns.State.{
  Phase, receiving, checking, saving, acking, calling, ranging, sending, clearing, leaving, left,
  Handler, Sent, acks, delivers,
}
use rea_time_chat_g_rpc.Api.Turns.Moves.{phases-update}
use rea_time_chat_g_rpc.Api.Turns.Owners.{Owned, AllOwned}

module _ {S : Type 0} where
  -- Which map a handler goes over, and for which address.
  abbrev pub at_row : Phase S → Option (Text × ℕ)
  at_row receiving = none
  at_row (checking req at now) = none
  at_row (saving req at now) = none
  at_row (acking to resp) = none
  at_row (calling to resp) = none
  at_row (ranging d) = some (d.to, d.row)
  at_row (sending d id s) = some (d.to, d.row)
  at_row (clearing to ids) = none
  at_row leaving = none
  at_row left = none

  abbrev pub OwnedAt : Shared S → List (Session S) → Option (Text × ℕ) → Type 0
  OwnedAt h ss none = Unit
  OwnedAt h ss (some (email, a)) = Owned h ss email a

  -- A delivery goes to a stream that a handler has opened under the address of the message.
  abbrev pub ToOwn : List (Session S) → Sent S → Type 0
  ToOwn ss (acks i s resp) = Unit
  ToOwn ss (delivers i to id s resp) = IsOpen to id s ss

  pub record Addressed (h : Shared S) (hs : ℕ → Option (Handler S)) (ss : List (Session S))
      (log : List (Sent S)) : Type 0 where
    pub rows : AllOwned h ss
    pub busy : (i : ℕ) (x : Handler S) → hs i ≡ some x → OwnedAt h ss (at_row x.phase)
    pub to_own : All (ToOwn ss) log

  OwnedAt-keeps :
      (h k : Shared S) (ss ts : List (Session S))
      → ((email : Text) (a : ℕ) → Owned h ss email a → Owned k ts email a)
      → (r : Option (Text × ℕ)) → OwnedAt h ss r
      → OwnedAt k ts r
  OwnedAt-keeps h k ss ts keeps none p = tt
  OwnedAt-keeps h k ss ts keeps (some (email, a)) p = keeps email a p

  pub ToOwn-cons :
      (x : Session S) (ss : List (Session S)) (e : Sent S) → ToOwn ss e → ToOwn (x ∷ ss) e
  ToOwn-cons x ss (acks i s resp) o = tt
  ToOwn-cons x ss (delivers i to id s resp) o = inr o

  -- A handler moves; the hub stays or gets other connections.
  pub Addressed-moves :
      (h k : Shared S) (ss ts : List (Session S)) (hs : ℕ → Option (Handler S))
      (log : List (Sent S)) (i : ℕ) (x : Handler S)
      → Addressed h hs ss log
      → AllOwned k ts
      → ((email : Text) (a : ℕ) → Owned h ss email a → Owned k ts email a)
      → All (ToOwn ts) log
      → OwnedAt k ts (at_row x.phase)
      → Addressed k (update hs i (some x)) ts log
  Addressed-moves h k ss ts hs log i x v rows keeps sent_ o = record {
    rows = rows;
    busy =
        phases-update (λ j p. OwnedAt k ts (at_row p)) hs i x o
          (λ j y n there. OwnedAt-keeps h k ss ts keeps (at_row y.phase) (v.busy j y there));
    to_own = sent_;
  }
