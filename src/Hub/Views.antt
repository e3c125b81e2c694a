-- ===== src/Hub/Views.antt =====
-- The hub without the order of its maps: a quotient.
use mathlib.Core.Quot
use mathlib.Core.Quot.{Quot, Quot-set}
use rea_time_chat_g_rpc.Base.{
  ℕ, ◌≡◌, ◌≢◌, ◌↔◌, ◌∙◌, sym, none, some, Bool, Text, text_discrete, lookup, Option-cases, inl, inr,
  [], ◌∷◌, arith,
}
use rea_time_chat_g_rpc.Wire.{ChatStreamResponse, StreamSender}
use rea_time_chat_g_rpc.Hub.{Conns, ConnectionHub, send_to_user, conn}
use rea_time_chat_g_rpc.Hub.Invariant.{Inv}
use rea_time_chat_g_rpc.Hub.Delivery.{
  Visits, Fates, conn-send_to_user, send_to_user-Inv, send_to_user-error_iff,
}
use rea_time_chat_g_rpc.Hub.Histories.{next_id-send_to_user}
use rea_time_chat_g_rpc.Hub.Broadcast.{Log, received-send_to_user}

-- The hubs are one but for the order in which their maps are written down: they have issued the same ids,
-- have rows for the same users, and an id names the same stream for a user.
pub record SameHub {S : Type 0} (h k : ConnectionHub S) : Type 0 where
  pub issued : h.next_id ≡ k.next_id
  pub rows :
      (email : Text)
      → (lookup text_discrete email h.streams ≡ none)
        ↔ (lookup text_discrete email k.streams ≡ none)
  pub conns : (email : Text) (id : ℕ) → conn email id h ≡ conn email id k

-- A hub without the order of its maps
abbrev pub View : Type 0 → Type 0
View S = Quot (SameHub {S = S})

abbrev pub view : {S : Type 0} → ConnectionHub S → View S
view h = Quot.mk h

-- In hubs that meet the invariant, the connections tell which users have a row.
no_row :
    {S : Type 0} (h k : ConnectionHub S) (email : Text)
    → Inv k
    → ((id : ℕ) → conn email id h ≡ conn email id k)
    → lookup text_discrete email h.streams ≡ none
    → lookup text_discrete email k.streams ≡ none
unfolding conn lookup
no_row h k email v same gone = elim (Option-cases (lookup text_discrete email k.streams)) [
  | inl e ↦ e
  | inr ([], e) ↦ absurd (v.filled email e)
  | inr ((id, s) ∷ conns, e) ↦
      let there : conn email id k ≡ some s = ground arith in
      let none_there : conn email id h ≡ none = ground arith in absurd (ground (arith, same id))
]

module _ {S W : Type 0} (net : StreamSender S W) (broken : S → Bool) (fates : Fates net broken)
    (log : Log net broken) where
  send_to_user-SameHub :
      (resp : ChatStreamResponse) (order other : Conns S → Conns S) (email : Text)
      (h : ConnectionHub S) (w : W)
      → Visits order
      → Visits other
      → Inv h
      → SameHub (send_to_user net order email resp h w).1 (send_to_user net other email resp h w).1
  send_to_user-SameHub resp order other email h w visits visits' v =
      let one = (send_to_user net order email resp h w).1 in
      let two = (send_to_user net other email resp h w).1 in
      let one-Inv = send_to_user-Inv net broken fates resp order visits email h w v in
      let two-Inv = send_to_user-Inv net broken fates resp other visits' email h w v in
      let conns : (f : Text) (i : ℕ) → conn f i one ≡ conn f i two = λ f i.
        conn-send_to_user net broken fates resp order visits email f i h w v
        ∙ sym (conn-send_to_user net broken fates resp other visits' email f i h w v) in
      record {
        issued =
            next_id-send_to_user net order email resp h w v
            ∙ sym (next_id-send_to_user net other email resp h w v);
        rows = λ f.
            (no_row one two f two-Inv (conns f), no_row two one f one-Inv (λ i. sym (conns f i)));
        conns = conns;
      }

  -- For a hub that meets the invariant, if `Send` fails exactly on the broken streams and streams carry what
  -- is sent on them unless they are broken: it does not matter in which of two orders `range` visits the
  -- connections, each once. `SendToUser` leaves the same hub up to the order of its
  -- maps, makes every stream carry the same
  -- responses, and reports an error in both cases or in neither.
  pub send_to_user-any_order :
      (resp : ChatStreamResponse) (order other : Conns S → Conns S) (email : Text)
      (h : ConnectionHub S) (w : W)
      → Visits order
      → Visits other
      → Inv h
      → let (e, h', w') = send_to_user net order email resp h w in
        let (e', h'', w'') = send_to_user net other email resp h w in
        (view h' ≡ view h'')
        × ((t : S) → log.received w' t ≡ log.received w'' t)
        × ((e ≢ none) ↔ (e' ≢ none))
  send_to_user-any_order resp order other email h w visits visits' v = (
    Quot.sound (send_to_user-SameHub resp order other email h w visits visits' v),
    λ t.
        received-send_to_user net broken log resp order visits email h w t v
        ∙ sym (received-send_to_user net broken log resp other visits' email h w t v),
    let here = send_to_user-error_iff net broken fates resp order visits email h w v in
        let there = send_to_user-error_iff net broken fates resp other visits' email h w v in
        (λ e. there.1 (here.0 e), λ e. here.1 (there.0 e)),
  )
