-- ===== src/Hub/Invariant.antt =====
-- What holds of the hub after any sequence of calls of its methods.
use rea_time_chat_g_rpc.Base.{
  ℕ, ◌+◌, ◌%◌, ◌≤◌, ◌<◌, ◌≡◌, ◌≢◌, inl, inr, some, List, [], ◌∷◌, arith, Text, text_discrete,
  ℕ_discrete, lookup, insert, erase, UniqueKeys, insert-UniqueKeys, erase-UniqueKeys, Option-cases,
}
use rea_time_chat_g_rpc.Hub.{
  Conns, ConnectionHub, int64_mod, new_connection_hub, register, close_row, unregister,
  unregister_all, row, conn,
}
use rea_time_chat_g_rpc.Hub.Routing.{
  lookup-put, row-put, conn-register, lookup-close_row, row-unregister, conn-unregister,
}

-- No user has an empty row; ids are issued in order, and no id serves two users or two streams.
pub record Inv {S : Type 0} (h : ConnectionHub S) : Type 0 where
  pub small : h.next_id < int64_mod
  pub filled : (e : Text) → lookup text_discrete e h.streams ≢ some []
  pub distinct : (e : Text) → UniqueKeys ℕ_discrete (row e h.streams)
  pub issued : (e : Text) (i : ℕ) (s : S) → conn e i h ≡ some s → (0 < i) × (i ≤ h.next_id)
  pub owned : (e f : Text) (i : ℕ) (s t : S) → conn e i h ≡ some s → conn f i h ≡ some t → e ≡ f

module _ {S : Type 0} where
  pub new_connection_hub-Inv : Inv (new_connection_hub {S = S})
  unfolding new_connection_hub conn lookup
  new_connection_hub-Inv = record {
    small = omega arith;
    filled = λ e p. cc;
    distinct = λ e. tt;
    issued = λ e i s p. absurd (cc);
    owned = λ e f i s t p q. absurd (cc);
  }

  module _ (email : Text) (s : S) (h : ConnectionHub S) (v : Inv h) where
    insert-ne-nil : (id : ℕ) (conns : Conns S) → insert ℕ_discrete id s conns ≢ []
    unfolding insert
    insert-ne-nil id [] = λ e. cc
    insert-ne-nil id (c ∷ cs) = ground arith

    register_filled : (e : Text) → lookup text_discrete e (register email s h).0.streams ≢ some []
    unfolding register
    register_filled e p =
        let new = (h.next_id + 1) % int64_mod in
        ground (
          arith,
          lookup-put email e new s h.streams,
          v.filled e,
          insert-ne-nil new (row email h.streams),
        )

    register_distinct : (e : Text) → UniqueKeys ℕ_discrete (row e (register email s h).0.streams)
    unfolding register
    register_distinct e =
        let new = (h.next_id + 1) % int64_mod in
        rw (row-put email e new s h.streams) (
          ground (
            arith,
            v.distinct e,
            insert-UniqueKeys ℕ_discrete new s (row email h.streams) (v.distinct email),
          ))

    module _ (room : h.next_id + 1 < int64_mod) where
      register_issued :
          (e : Text) (i : ℕ) (t : S)
          → conn e i (register email s h).0 ≡ some t
          → (0 < i) × (i ≤ h.next_id + 1)
      register_issued e i t p = ground (arith, conn-register email e i s h, v.issued e i t)

      register_owned :
          (e f : Text) (i : ℕ) (t u : S)
          → conn e i (register email s h).0 ≡ some t
          → conn f i (register email s h).0 ≡ some u
          → e ≡ f
      register_owned e f i t u p q = ground (
        arith,
        conn-register email e i s h,
        conn-register email f i s h,
        v.owned e f i t u,
        v.issued e i t,
        v.issued f i u,
      )

      pub next_id-register : (register email s h).0.next_id ≡ h.next_id + 1
      unfolding register
      next_id-register = omega arith

      -- `Register` keeps the invariant of the hub while the connection ids have room below their bound.
      pub register-Inv : Inv (register email s h).0
      register-Inv = record {
        small = rw next_id-register room;
        filled = register_filled;
        distinct = register_distinct;
        issued = λ e i t p. rw next_id-register (register_issued e i t p);
        owned = register_owned;
      }

  module _ (email : Text) (id : ℕ) (h : ConnectionHub S) (v : Inv h) where
    unregister_filled :
        (e : Text) → lookup text_discrete e (unregister email id h).streams ≢ some []
    unfolding unregister
    unregister_filled e p = elim (Option-cases (lookup text_discrete email h.streams)) [
      | inl q ↦ v.filled e (rw (q, unregister) at p)
      | inr (conns, q) ↦ filled_row (erase ℕ_discrete id conns) (rw (q, unregister) at p)
    ]
      where
        filled_row :
            (conns : Conns S)
            → ¬ (lookup text_discrete e (close_row email conns h.streams) ≡ some [])
        filled_row [] r = ground (arith, lookup-close_row email e [] h.streams, v.filled e)
        filled_row (c ∷ cs) r =
            ground (arith, lookup-close_row email e (c ∷ cs) h.streams, v.filled e)

    pub next_id-unregister : (unregister email id h).next_id ≡ h.next_id
    unfolding unregister
    next_id-unregister = ground arith

    -- `Unregister` keeps the invariant of the hub.
    pub unregister-Inv : Inv (unregister email id h)
    unregister-Inv = record {
      small = rw next_id-unregister v.small;
      filled = unregister_filled;
      distinct = λ e. rw (row-unregister email e id h) (
          ground (
            arith,
            v.distinct e,
            erase-UniqueKeys ℕ_discrete id (row email h.streams) (v.distinct email),
          ));
      issued = λ e i t p.
          rw next_id-unregister (ground (arith, conn-unregister email e id i h, v.issued e i t));
      owned = λ e f i t u p q. ground (
        arith,
        conn-unregister email e id i h,
        conn-unregister email f id i h,
        v.owned e f i t u,
      );
    }

  pub unregister_all-Inv :
      (email : Text) (ids : List ℕ) (h : ConnectionHub S) → Inv h → Inv (unregister_all email ids h)
  unfolding unregister_all
  unregister_all-Inv email [] h v = v
  unregister_all-Inv email (id ∷ ids) h v =
      unregister_all-Inv email ids (unregister email id h) (unregister-Inv email id h v)
