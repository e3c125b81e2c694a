-- ===== src/Api/Turns/Failures.antt =====
-- The connections on which a `Send` of `SendToUser` has failed, and those that a handler holds against them.
use rea_time_chat_g_rpc.Base.{ℕ, some, List, [], ◌∷◌, ◌++◌, Text, All, All-map, Has, Has-right}
use rea_time_chat_g_rpc.Api.Stores.{UsersStore, MessagesStore}
use rea_time_chat_g_rpc.Api.Turns.State.{Phase, ranging, sending, clearing, Turns}
use rea_time_chat_g_rpc.Api.Turns.{Step, sent, Reach, here, next}
use rea_time_chat_g_rpc.Base.{
  ◌≡◌, ◌≢◌, sym, inl, inr, none, Option, subst, arith, text_discrete, lookup, true, false, Bool,
  Result, ok, err, Option-cases,
}
use rea_time_chat_g_rpc.Errors.{Error}
use rea_time_chat_g_rpc.Wire.{ChatStreamResponse}
use rea_time_chat_g_rpc.Hub.{Conns}
use rea_time_chat_g_rpc.Hub.Shared.{Shared}
use rea_time_chat_g_rpc.Api.Requests.{ChatStreamRequest}
use rea_time_chat_g_rpc.Api.Turns.State.{receiving, after_check, after_ack, after_look, over}

module _ {S W : Type 0} (hex : ℕ → Text) (users : UsersStore W) (msgs : MessagesStore W) where
  -- The connection on which the `Send` of a loop that returns in this step has failed
  unfoldable pub failure_of : {st k : Turns S W} → Step hex users msgs st k → List (Text × ℕ)
  failure_of (sent i x d id s (some e) at) = (d.to, id) ∷ []
  failure_of _ = []

  -- Those of a run
  unfoldable pub failures : {st k : Turns S W} → Reach hex users msgs st k → List (Text × ℕ)
  failures here = []
  failures (next r step) = failure_of step ++ failures r

abbrev pub Holds : List (Text × ℕ) → Text → List ℕ → Type 0
Holds fs to ids = All (λ id. Has (to, id) fs) ids

-- Every id in `failedIDs` is that of a connection on which a `Send` has failed.
abbrev pub Blames : {S : Type 0} → List (Text × ℕ) → Phase S → Type 0
Blames fs (ranging d) = Holds fs d.to d.failed
Blames fs (sending d id s) = Holds fs d.to d.failed
Blames fs (clearing to ids) = Holds fs to ids
Blames fs _ = Unit

pub Holds-more :
    (fs gs : List (Text × ℕ)) (to : Text) (ids : List ℕ) → Holds gs to ids → Holds (fs ++ gs) to ids
Holds-more fs gs to ids =
    All-map (λ id. Has (to, id) gs) (λ id. Has (to, id) (fs ++ gs)) ids
      (λ id. Has-right (to, id) fs gs)

pub Blames-more :
    {S : Type 0} (fs gs : List (Text × ℕ)) (p : Phase S) → Blames gs p → Blames (fs ++ gs) p
Blames-more fs gs (ranging d) v = Holds-more fs gs d.to d.failed v
Blames-more fs gs (sending d id s) v = Holds-more fs gs d.to d.failed v
Blames-more fs gs (clearing to ids) v = Holds-more fs gs to ids v
Blames-more fs gs _ v = tt

over-Blames :
    {S : Type 0} (fs : List (Text × ℕ)) (to : Text) (resp : ChatStreamResponse) (a : ℕ)
    (cs : Conns S)
    → Blames fs (over to resp a cs)
over-Blames fs to resp a [] = tt
over-Blames fs to resp a (c ∷ cs) = tt

pub after_look-Blames :
    {S : Type 0} (fs : List (Text × ℕ)) (to : Text) (resp : ChatStreamResponse) (h : Shared S)
    → Blames fs (after_look to resp h)
unfolding after_look
after_look-Blames {S} fs to resp h = elim (Option-cases (lookup text_discrete to h.rows)) [
  | inl e ↦
      let waits : receiving ≡ after_look {S = S} to resp h = ground arith in
      subst (Blames fs) waits tt
  | inr (a, e) ↦
      let goes : over to resp a (h.heap a) ≡ after_look to resp h = ground arith in
      subst (Blames fs) goes (over-Blames fs to resp a (h.heap a))
]

pub after_check-Blames :
    (S : Type 0) (fs : List (Text × ℕ)) (req : ChatStreamRequest) (at now : ℕ)
    (r : Result Error Bool)
    → Blames {S = S} fs (after_check req at now r)
after_check-Blames S fs req at now (err e) = tt
after_check-Blames S fs req at now (ok false) = tt
after_check-Blames S fs req at now (ok true) = tt

pub after_ack-Blames :
    (S : Type 0) (fs : List (Text × ℕ)) (to : Text) (resp : ChatStreamResponse) (e : Option Error)
    → Blames {S = S} fs (after_ack to resp e)
after_ack-Blames S fs to resp none = tt
after_ack-Blames S fs to resp (some e) = tt

-- A connection on which a `Send` has failed is that of no handler on whose connection none has.
pub failed-apart :
    (fs : List (Text × ℕ)) (to : Text) (id : ℕ) (c : Text × ℕ)
    → Has (to, id) fs
    → ¬ Has c fs
    → c ≢ (to, id)
failed-apart fs to id c failed free e = free (subst (λ k. Has k fs) (sym e) failed)
