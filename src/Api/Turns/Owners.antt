-- ===== src/Api/Turns/Owners.antt =====
-- To whom the maps of the hub belong.
use rea_time_chat_g_rpc.Base.{
  ℕ, ◌+◌, ◌%◌, ◌<◌, ◌≡◌, ◌∙◌, sym, subst, inl, inr, none, some, List, [], ◌∷◌, arith, Text,
  text_discrete, ℕ_discrete, lookup, insert, lookup-insert,
}
use rea_time_chat_g_rpc.Hub.{Conns, int64_mod}
use rea_time_chat_g_rpc.Hub.Shared.{Shared, register_at, unregister_at}
use rea_time_chat_g_rpc.Hub.Shared.Steps.{
  rows-register_at, fresh-register_at, rows-unregister_at, rest-unregister_at,
}
use rea_time_chat_g_rpc.Hub.Shared.Heap.{heap-register_at, heap-unregister_at, heap-new_row}
use rea_time_chat_g_rpc.Auth.{Claims}
use rea_time_chat_g_rpc.Api.Chats.{Session}
use rea_time_chat_g_rpc.Api.Chats.Backed.{IsOpen}

module _ {S : Type 0} where
  -- A map of the hub belongs to the address: it is the row of no other one, and its connections are those of
  -- handlers that have opened them under the address.
  pub record Owned (h : Shared S) (ss : List (Session S)) (email : Text) (a : ℕ) : Type 0 where
    pub below : a < h.fresh
    pub only : (f : Text) → lookup text_discrete f h.rows ≡ some a → f ≡ email
    pub filled : (id : ℕ) (s : S) → lookup ℕ_discrete id (h.heap a) ≡ some s → IsOpen email id s ss

  abbrev pub AllOwned : Shared S → List (Session S) → Type 0
  AllOwned h ss =
      (email : Text) (a : ℕ) → lookup text_discrete email h.rows ≡ some a → Owned h ss email a

  module _ (claims : Claims) (s : S) (h : Shared S) (ss : List (Session S)) where
    abbrev pub next_session : Session S
    next_session = record { claims = claims; stream = s; conn_id = (h.next_id + 1) % int64_mod }

    filled-insert :
        (email : Text) (conns : Conns S) (id : ℕ) (t : S)
        → claims.email ≡ email
        → ((id : ℕ) (t : S) → lookup ℕ_discrete id conns ≡ some t → IsOpen email id t ss)
        → lookup ℕ_discrete id (insert ℕ_discrete ((h.next_id + 1) % int64_mod) s conns) ≡ some t
        → IsOpen email id t (next_session ∷ ss)
    filled-insert email conns id t mail before p =
        let new = (h.next_id + 1) % int64_mod in
        let there = lookup-insert ℕ_discrete new id s conns in
        elim (ℕ_discrete new id) [
          | yes e ↦ inl (mail, e, ground arith)
          | no n ↦ inr (before id t (ground arith))
        ]

    pub Owned-register_at :
        (email : Text) (a : ℕ)
        → Owned h ss email a
        → Owned (register_at claims.email s h) (next_session ∷ ss) email a
    Owned-register_at email a o = record {
      below = omega (arith, o.below, fresh-register_at claims.email s h);
      only = λ f p. ground (arith, rows-register_at claims.email s h f a p, o.only f, o.below);
      filled = λ id t p. elim (heap-register_at claims.email s h a) [
        | inl same ↦ inr (o.filled id t (subst (λ c. lookup ℕ_discrete id c ≡ some t) same p))
        | inr (inl (row, put)) ↦
            filled-insert email (h.heap a) id t (o.only claims.email row) o.filled
              (subst (λ c. lookup ℕ_discrete id c ≡ some t) put p)
        | inr (inr (new, put)) ↦ absurd (omega (arith, o.below, new))
      ];
    }

    heap_at :
        (a : ℕ)
        → a ≡ h.fresh
        → lookup text_discrete claims.email h.rows ≡ none
        → (register_at claims.email s h).heap a
          ≡ insert ℕ_discrete ((h.next_id + 1) % int64_mod) s []
    heap_at a new free =
        subst
          (λ b.
            (register_at claims.email s h).heap b
            ≡ insert ℕ_discrete ((h.next_id + 1) % int64_mod) s [])
          (sym new) (heap-new_row claims.email s h free)

    pub AllOwned-register_at :
        AllOwned h ss → AllOwned (register_at claims.email s h) (next_session ∷ ss)
    unfolding lookup
    AllOwned-register_at v email a row = elim (rows-register_at claims.email s h email a row) [
      | inl before ↦ Owned-register_at email a (v email a before)
      | inr (mail, new, free, grows) ↦ record {
        below = omega (arith, new, grows);
        only = λ f p. elim (rows-register_at claims.email s h f a p) [
          | inl known ↦ let o = v f a known in absurd (omega (arith, o.below, new))
          | inr (same, _, _, _) ↦ same ∙ sym mail
        ];
        filled = λ id t p.
            filled-insert email [] id t (sym mail) (λ k u none_. absurd (ground arith))
              (subst (λ c. lookup ℕ_discrete id c ≡ some t) (heap_at a new free) p);
      }
    ]

  module _ (mail : Text) (gone : ℕ) (h : Shared S) (ss : List (Session S)) where
    pub Owned-unregister_at :
        (email : Text) (a : ℕ) → Owned h ss email a → Owned (unregister_at mail gone h) ss email a
    Owned-unregister_at email a o = record {
      below = omega (arith, o.below, rest-unregister_at mail gone h);
      only = λ f p. o.only f (rows-unregister_at mail gone h f a p);
      filled = λ id t p. o.filled id t (heap-unregister_at mail gone h a id t p);
    }

    pub AllOwned-unregister_at : AllOwned h ss → AllOwned (unregister_at mail gone h) ss
    AllOwned-unregister_at v email a row =
        Owned-unregister_at email a (v email a (rows-unregister_at mail gone h email a row))
