-- ===== src/Api/Turns/Connected.antt =====
-- Which connections the hub holds while the handlers take their turns.
use rea_time_chat_g_rpc.Base.{
  ℕ, ◌+◌, ◌<◌, ◌≡◌, ◌∙◌, refl, sym, subst, ap, inl, Option, none, some, List, [], ◌∷◌, ◌++◌, arith,
  Text, lookup, length, length-append, false, Result, ok, err, Has, All-append,
}
use rea_time_chat_g_rpc.Errors.{Error}
use rea_time_chat_g_rpc.Data.Models.{Message}
use rea_time_chat_g_rpc.Hub.{int64_mod}
use rea_time_chat_g_rpc.Hub.Shared.{Shared, new_shared, unregister_at, conn_at}
use rea_time_chat_g_rpc.Hub.Shared.Steps.{new_shared-Separate}
use rea_time_chat_g_rpc.Api.Html.{escape_string}
use rea_time_chat_g_rpc.Api.Stores.{UsersStore, MessagesStore}
use rea_time_chat_g_rpc.Api.Requests.{ChatStreamRequest}
use rea_time_chat_g_rpc.Api.Handlers.Chat.{ack}
use rea_time_chat_g_rpc.Api.Turns.State.{
  Phase, receiving, checking, saving, acking, calling, ranging, sending, clearing, leaving, left,
  Handler, Turns, new_turns, moved, opened, after_check, after_save, saved, after_ack, after_look,
  after_send, picked, unregistered,
}
use rea_time_chat_g_rpc.Api.Turns.{
  IsAt, Step, opens, receives, ends, checks, saves, acked, looks, picks, sent, stops, clears,
  cleared, leaves, Reach, here, next,
}
use rea_time_chat_g_rpc.Api.Turns.Calls.{calls, call_of}
use rea_time_chat_g_rpc.Api.Turns.Failures.{
  failures, failure_of, Blames, Holds-more, after_look-Blames, after_check-Blames, after_ack-Blames,
  failed-apart,
}
use rea_time_chat_g_rpc.Api.Turns.Kept.{
  is_left, key, Kept, Kept-waits, Kept-unregisters, Kept-opens, left-apart,
}

module _ {S W : Type 0} (hex : ℕ → Text) (users : UsersStore W) (msgs : MessagesStore W) where
  module _ (fs : List (Text × ℕ)) (n : ℕ) where
    abbrev IsKept : Turns S W → Type 0
    IsKept st = Kept st.hub st.handlers fs n

    -- A step on which no call and no failure depends
    moved-Kept :
        (i : ℕ) (x : Handler S) (q p : Phase S) (st : Turns S W)
        → IsKept st
        → IsAt i x q st
        → is_left q ≡ false
        → Blames fs p
        → IsKept (moved i x p st)
    unfolding moved
    moved-Kept i x q p st v (there, at) runs b =
        Kept-waits st.hub st.handlers fs n v i x p there (ap is_left at ∙ runs) [] b

    after_save-Kept :
        (i : ℕ) (x : Handler S) (to : Text) (r : Result Error Message) (q : Phase S)
        (st : Turns S W)
        → IsKept st
        → IsAt i x q st
        → is_left q ≡ false
        → IsKept (after_save hex i x to r st)
    unfolding after_save moved
    after_save-Kept i x to (err e) q st v is_at runs = moved-Kept i x q leaving st v is_at runs tt
    after_save-Kept i x to (ok m) q st v is_at runs =
        moved-Kept i x q (acking to (ack hex m)) st v is_at runs tt

    saved-Kept :
        (i : ℕ) (x : Handler S) (req : ChatStreamRequest) (at now : ℕ) (st : Turns S W)
        → IsKept st
        → IsAt i x (saving req at now) st
        → IsKept (saved hex msgs i x req at now st)
    unfolding saved
    saved-Kept i x req at now st v is_at =
        let (result, w) =
          msgs.save_message x.session.claims.email req.to_email (escape_string req.content) at now
            st.world in
        after_save-Kept i x req.to_email result (saving req at now) (record st { world = w }) v
          is_at refl

    held :
        {p : Phase S} (st : Turns S W)
        → IsKept st
        → (i : ℕ) (x : Handler S) → IsAt i x p st
        → Blames fs p
    held st v i x (there, at) = subst (Blames fs) at (v.blamed i x there)

    clears-Kept :
        (i : ℕ) (x : Handler S) (to : Text) (id : ℕ) (ids : List ℕ) (st : Turns S W)
        → IsKept st
        → IsAt i x (clearing to (id ∷ ids)) st
        → Kept
            (unregister_at to id st.hub)
            (moved i x (clearing to ids) (unregistered to id st)).handlers
            fs
            (n + 1)
    unfolding moved unregistered
    clears-Kept i x to id ids st v is_at =
        let blamed = held st v i x is_at in
        Kept-unregisters st.hub st.handlers fs n v i x (clearing to ids) is_at.0
          (ap is_left is_at.1) to id blamed.1
          (λ j y q run free. failed-apart fs to id (key y.session) blamed.0 free)

    leaves-Kept :
        (i : ℕ) (x : Handler S) (st : Turns S W)
        → IsKept st
        → IsAt i x leaving st
        → Kept
            (unregister_at x.session.claims.email x.session.conn_id st.hub)
            (moved i x left (unregistered x.session.claims.email x.session.conn_id st)).handlers
            fs
            (n + 1)
    unfolding moved unregistered
    leaves-Kept i x st v (there, at) =
        Kept-unregisters st.hub st.handlers fs n v i x left there (ap is_left at)
          x.session.claims.email x.session.conn_id tt
          (left-apart st.hub st.handlers fs n v i x there)

  no_call-Kept :
      (fs : List (Text × ℕ)) (n : ℕ) (h : Shared S) (hs : ℕ → Option (Handler S))
      → Kept h hs fs n
      → Kept h hs fs (n + 0)
  no_call-Kept fs n h hs = let same : n ≡ n + 0 = omega arith in subst (Kept h hs fs) same

  Step-Kept :
      {st k : Turns S W} (step : Step hex users msgs st k) (fs : List (Text × ℕ)) (n : ℕ)
      → IsKept fs n st
      → n + length (call_of hex users msgs step) < int64_mod
      → IsKept (failure_of hex users msgs step ++ fs) (n + length (call_of hex users msgs step)) k
  unfolding call_of failure_of moved opened picked unregistered
  Step-Kept {st} (opens call claims stream auth) fs n v room =
      Kept-opens claims stream st.hub st.handlers fs n v room st.started
  Step-Kept {st} (clears i x to id ids at) fs n v room = clears-Kept fs n i x to id ids st v at
  Step-Kept {st} (leaves i x at) fs n v room = leaves-Kept fs n i x st v at
  Step-Kept {st} (receives i x req at now here_) fs n v room =
      no_call-Kept _ n _ _ (moved-Kept fs n i x receiving (checking req at now) st v here_ refl tt)
  Step-Kept {st} (ends i x e at last) fs n v room =
      no_call-Kept _ n _ _ (moved-Kept fs n i x receiving leaving st v at refl tt)
  Step-Kept {st} (checks i x req at now here_) fs n v room =
      let answer = users.user_exists req.to_email st.world in
      no_call-Kept _ n _ _ (
        moved-Kept fs n i x (checking req at now) (after_check req at now answer) st v here_ refl
          (after_check-Blames S fs req at now answer))
  Step-Kept {st} (saves i x req at now here_) fs n v room =
      no_call-Kept _ n _ _ (saved-Kept fs n i x req at now st v here_)
  Step-Kept {st} (acked i x to resp e at) fs n v room = no_call-Kept _ n _ _ (
      moved-Kept fs n i x (acking to resp) (after_ack to resp e) st v at refl
        (after_ack-Blames S fs to resp e))
  Step-Kept {st} (looks i x to resp at) fs n v room = no_call-Kept _ n _ _ (
      moved-Kept fs n i x (calling to resp) (after_look to resp st.hub) st v at refl
        (after_look-Blames fs to resp st.hub))
  Step-Kept {st} (picks i x d id s at found fresh) fs n v room =
      no_call-Kept _ n _ _
        (moved-Kept fs n i x (ranging d) (sending d id s) st v at refl (held fs n st v i x at))
  Step-Kept {st} (sent i x d id s none at) fs n v room = no_call-Kept _ n _ _ (
      moved-Kept fs n i x (sending d id s) (after_send d id none) st v at refl
        (held fs n st v i x at))
  Step-Kept {st} (sent i x d id s (some e) (there, at)) fs n v room = no_call-Kept _ n _ _ (
      Kept-waits st.hub st.handlers fs n v i x (after_send d id (some e)) there (ap is_left at)
        ((d.to, id) ∷ [])
        (All-append (λ k. Has (d.to, k) ((d.to, id) ∷ fs)) d.failed (id ∷ [])
          (Holds-more ((d.to, id) ∷ []) fs d.to d.failed (held fs n st v i x (there, at)))
          (inl refl, tt)))
  Step-Kept {st} (stops i x d at all) fs n v room = no_call-Kept _ n _ _ (
      moved-Kept fs n i x (ranging d) (clearing d.to d.failed) st v at refl (held fs n st v i x at))
  Step-Kept {st} (cleared i x to at) fs n v room =
      no_call-Kept _ n _ _ (moved-Kept fs n i x (clearing to []) receiving st v at refl tt)

  new_turns-Kept : (w : W) → IsKept [] 0 (new_turns w)
  unfolding new_turns new_shared lookup
  new_turns-Kept w = record {
    separate = new_shared-Separate;
    few = omega arith;
    known = λ i x p. absurd (cc);
    apart = λ i j x y p q e. absurd (cc);
    blamed = λ i x p. absurd (cc);
    named = λ i x p run free. absurd (cc);
  }

  Reach-Kept :
      (w : W) {st : Turns S W} (r : Reach hex users msgs (new_turns w) st)
      → length (calls hex users msgs r) < int64_mod
      → IsKept (failures hex users msgs r) (length (calls hex users msgs r)) st
  unfolding calls failures
  Reach-Kept w here room = new_turns-Kept w
  Reach-Kept w (next {k} {l} r step) room =
      let sum = length-append (calls hex users msgs r) (call_of hex users msgs step) in
      let earlier = Reach-Kept w r (omega (arith, sum)) in
      subst (λ n. IsKept (failure_of hex users msgs step ++ failures hex users msgs r) n l)
        (sym sum)
        (Step-Kept step (failures hex users msgs r) (length (calls hex users msgs r)) earlier
          (omega (arith, sum)))

  -- In whatever order the handlers of the chat streams take their turns, down to the start and the end of
  -- each `Send`, and as long as they have made fewer than 2 ^ 64 calls of `Register` and `Unregister`: the
  -- stream of every handler that has not ended is in the hub, under the address of its claims and the id
  -- that it was given, unless a `Send` of a `SendToUser` has failed on this very connection.
  pub runs_connected :
      (w : W) (st : Turns S W) (r : Reach hex users msgs (new_turns w) st) (i : ℕ) (x : Handler S)
      → length (calls hex users msgs r) < int64_mod
      → st.handlers i ≡ some x
      → is_left x.phase ≡ false
      → ¬ Has (key x.session) (failures hex users msgs r)
      → conn_at x.session.claims.email x.session.conn_id st.hub ≡ some x.session.stream
  runs_connected w st r i x room found running well =
      (Reach-Kept w r room).named i x found running well
