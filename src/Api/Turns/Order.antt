-- ===== src/Api/Turns/Order.antt =====
-- What a handler owes to the connections that its message has not reached.
use mathlib.Core.List.{Sublist}
use mathlib.Core.List.Sublist
use rea_time_chat_g_rpc.Base.{
  inl, inr, ℕ, ◌≡◌, refl, inr, none, some, Option, List, [], ◌∷◌, arith, Has, update, ℕ_discrete,
  subst, sym, ap, ◌≢◌, ◌∙◌,
}
use rea_time_chat_g_rpc.Wire.{ChatStreamResponse}
use rea_time_chat_g_rpc.Api.Turns.Moves.{phases-update}
use rea_time_chat_g_rpc.Api.Turns.State.{
  Delivery, Phase, receiving, checking, saving, acking, calling, ranging, sending, clearing,
  leaving, left, Handler, Sent, acks, delivers,
}
use rea_time_chat_g_rpc.Api.Turns.Log.{acked_by, delivered_by}

dec_both : (i j k l : ℕ) → Dec ((i ≡ j) × (k ≡ l))
dec_both i j k l = elim (ℕ_discrete i j) [
  | yes p ↦ elim (ℕ_discrete k l) [ yes q ↦ yes (p, q) | no n ↦ no (λ h. n h.1) ]
  | no n ↦ no (λ h. n h.0)
]

module _ {S : Type 0} where
  -- The response that a handler deals with, and the ids that have got it.
  abbrev pub current : Phase S → Option (ChatStreamResponse × List ℕ)
  current receiving = none
  current (checking req at now) = none
  current (saving req at now) = none
  current (acking to resp) = some (resp, [])
  current (calling to resp) = some (resp, [])
  current (ranging d) = some (d.resp, d.visited)
  current (sending d id s) = some (d.resp, id ∷ d.visited)
  current (clearing to ids) = none
  current leaving = none
  current left = none

  -- The last response for which `Send` has been called on an id is this one, and those before are earlier
  -- ones.
  abbrev pub Got : List (Sent S) → ℕ → ℕ → ChatStreamResponse → List ChatStreamResponse → Type 0
  Got log i id resp older =
      (before : List ChatStreamResponse) × (delivered_by i id log ≡ resp ∷ before)
      × Sublist before older

  -- It is the last one that the handler has acknowledged, and on the other ids `Send` has been called for earlier ones
  -- only.
  abbrev pub Owes : List (Sent S) → ℕ → Option (ChatStreamResponse × List ℕ) → Type 0
  Owes log i none = Unit
  Owes log i (some (resp, visited)) =
      (older : List ChatStreamResponse) × (acked_by i log ≡ resp ∷ older)
      × ((id : ℕ) → ¬ Has id visited → Sublist (delivered_by i id log) older)
      × ((id : ℕ) → Has id visited → Got log i id resp older)

  pub record InOrder (hs : ℕ → Option (Handler S)) (log : List (Sent S)) : Type 0 where
    pub so_far : (i id : ℕ) → Sublist (delivered_by i id log) (acked_by i log)
    pub now : (i : ℕ) (x : Handler S) → hs i ≡ some x → Owes log i (current x.phase)

  -- An entry of the log by another handler.
  Owes-other :
      (i j : ℕ) (e : Sent S) (log : List (Sent S)) (o : Option (ChatStreamResponse × List ℕ))
      → acked_by j (e ∷ log) ≡ acked_by j log
      → ((id : ℕ) → delivered_by j id (e ∷ log) ≡ delivered_by j id log)
      → Owes log j o
      → Owes (e ∷ log) j o
  Owes-other i j e log none a d o = tt
  Owes-other i j e log (some (resp, visited)) a d (older, top, rest, got) = (
    older,
    a ∙ top,
    λ id fresh. subst (λ xs. Sublist xs older) (sym (d id)) (rest id fresh),
    λ id m. let (before, last, earlier) = got id m in (before, d id ∙ last, earlier),
  )

  -- What a step of the `i`th handler leaves to show.
  module _ (hs : ℕ → Option (Handler S)) (log : List (Sent S)) (i : ℕ) (x : Handler S)
      (v : InOrder hs log) where
    now-update :
        (l : List (Sent S))
        → ((j : ℕ) → i ≢ j → (o : Option (ChatStreamResponse × List ℕ)) → Owes log j o → Owes l j o)
        → Owes l i (current x.phase)
        → (j : ℕ) (y : Handler S) → update hs i (some x) j ≡ some y
        → Owes l j (current y.phase)
    now-update l others o =
        phases-update (λ k p. Owes l k (current p)) hs i x o
          (λ j y n there. others j n (current y.phase) (v.now j y there))

    pub InOrder-stays : Owes log i (current x.phase) → InOrder (update hs i (some x)) log
    InOrder-stays o = record { so_far = v.so_far; now = now-update log (λ j n p q. q) o }

    pub InOrder-acks :
        (s : S) (resp : ChatStreamResponse)
        → current x.phase ≡ some (resp, [])
        → InOrder (update hs i (some x)) (acks i s resp ∷ log)
    unfolding acked_by delivered_by
    InOrder-acks s resp at_resp = record {
      so_far = λ j id. elim (ℕ_discrete i j) [
        | yes e ↦
            let eq : resp ∷ acked_by j log ≡ acked_by j (acks i s resp ∷ log) = ground arith in
            subst (Sublist (delivered_by j id log)) eq (Sublist.cons resp (v.so_far j id))
        | no n ↦
            let eq : acked_by j log ≡ acked_by j (acks i s resp ∷ log) = ground arith in
            subst (Sublist (delivered_by j id log)) eq (v.so_far j id)
      ];
      now =
          now-update (acks i s resp ∷ log)
            (λ j n o. Owes-other i j (acks i s resp) log o (ground arith) (λ id. refl))
            (subst (Owes (acks i s resp ∷ log) i) (sym at_resp)
              (acked_by i log, ground arith, λ id fresh. v.so_far i id, λ id m. absurd m));
    }

    Got-delivers :
        (d : Delivery) (id : ℕ) (s : S) (older : List ChatStreamResponse) (k : ℕ)
        → ((n : ℕ) → ¬ Has n d.visited → Sublist (delivered_by i n log) older)
        → ((n : ℕ) → Has n d.visited → Got log i n d.resp older)
        → ¬ Has id d.visited
        → Has k (id ∷ d.visited)
        → Got (delivers i d.to id s d.resp ∷ log) i k d.resp older
    unfolding delivered_by
    Got-delivers d id s older k rest got fresh (inl same) =
        let new : ¬ Has k d.visited = λ m. fresh (subst (λ n. Has n d.visited) (sym same) m) in
        (delivered_by i k log, ground arith, rest k new)
    Got-delivers d id s older k rest got fresh (inr m) =
        let (before, last, earlier) = got k m in
        let other : id ≢ k = λ e. fresh (subst (λ n. Has n d.visited) (sym e) m) in
        (before, ground arith, earlier)

    pub InOrder-delivers :
        (d : Delivery) (id : ℕ) (s : S)
        → Owes log i (some (d.resp, d.visited))
        → ¬ Has id d.visited
        → x.phase ≡ sending d id s
        → InOrder (update hs i (some x)) (delivers i d.to id s d.resp ∷ log)
    unfolding acked_by delivered_by
    InOrder-delivers d id s (older, top, rest, got) fresh at_send = record {
      so_far = λ j k. elim (dec_both i j id k) [
        | yes (same, hit) ↦
            let with_it : d.resp ∷ delivered_by j k log
                ≡ delivered_by j k (delivers i d.to id s d.resp ∷ log) =
              ground arith in
            let all : d.resp ∷ older ≡ acked_by j log = sym top ∙ ap (λ n. acked_by n log) same in
            let before : Sublist (delivered_by j k log) older =
              subst (λ n. Sublist (delivered_by n k log) older) same
                (rest k (λ m. fresh (subst (λ n. Has n d.visited) (sym hit) m))) in
            subst (λ xs. Sublist xs (acked_by j log)) with_it
              (subst (Sublist (d.resp ∷ delivered_by j k log)) all
                (Sublist.cons-cons d.resp before))
        | no other ↦
            let eq : delivered_by j k log ≡ delivered_by j k (delivers i d.to id s d.resp ∷ log) =
              ground arith in
            subst (λ xs. Sublist xs (acked_by j log)) eq (v.so_far j k)
      ];
      now =
          now-update (delivers i d.to id s d.resp ∷ log)
            (λ j n o. Owes-other i j (delivers i d.to id s d.resp) log o refl (λ k. ground arith))
            (subst (λ p. Owes (delivers i d.to id s d.resp ∷ log) i (current p)) (sym at_send)
              (
                older,
                top,
                λ k other.
                    subst (λ xs. Sublist xs older) (ground arith) (rest k (λ m. other (inr m))),
                λ k m. Got-delivers d id s older k rest got fresh m,
              ));
    }
