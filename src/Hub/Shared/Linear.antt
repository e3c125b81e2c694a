-- ===== src/Hub/Shared/Linear.antt =====
-- The steps in their turn against the calls of Hub.
use rea_time_chat_g_rpc.Base.{
  ℕ, ◌+◌, ◌%◌, ◌≡◌, refl, inl, inr, none, some, List, [], ◌∷◌, ◌++◌, arith, ite, Text, without,
  text_discrete, ℕ_discrete, lookup, insert, erase, lookup-insert, lookup-erase, Option-cases,
}
use rea_time_chat_g_rpc.Wire.{StreamSender}
use rea_time_chat_g_rpc.Hub.{
  Conns, ConnectionHub, int64_mod, new_connection_hub, register, unregister, conn,
}
use rea_time_chat_g_rpc.Hub.Routing.{conn-register, conn-unregister}
use rea_time_chat_g_rpc.Hub.Histories.{
  Action, registers, unregisters, run, run-registers, run-unregisters,
}
use rea_time_chat_g_rpc.Hub.Shared.{
  Shared, new_shared, register_at, unregister_at, rows_after, row_at, conn_at,
}
use rea_time_chat_g_rpc.Hub.Shared.Steps as Steps
use rea_time_chat_g_rpc.Hub.Shared.Steps.{
  Step, Reach, here, next, Separate, new_shared-Separate, Reach-Separate,
}

module _ {S : Type 0} where
  pub row_at-register_at :
      (email other : Text) (s : S) (h : Shared S)
      → Separate h
      → row_at other (register_at email s h)
        ≡ ite
            (text_discrete email other)
            (insert ℕ_discrete ((h.next_id + 1) % int64_mod) s (row_at email h))
            (row_at other h)
  unfolding row_at register_at
  row_at-register_at email other s h v =
      let rows = lookup-insert text_discrete email other h.fresh h.rows in
      elim (Option-cases (lookup text_discrete other h.rows)) [
        | inl f ↦ ground (arith, rows)
        | inr (b, f) ↦ ground (arith, rows, v.known other b f, v.apart email other b)
      ]

  lookup-rows_after :
      (email other : Text) (conns : Conns S) (rows : List (Text × ℕ))
      → lookup text_discrete other (rows_after email conns rows)
        ≡ ite
            (text_discrete email other)
            (elim conns [ [] ↦ none | c ∷ cs ↦ lookup text_discrete other rows ])
            (lookup text_discrete other rows)
  unfolding rows_after
  lookup-rows_after email other [] rows =
      ground (arith, lookup-erase text_discrete email other rows)
  lookup-rows_after email other (c ∷ cs) rows = ground arith

  pub row_at-unregister_at :
      (email other : Text) (id : ℕ) (h : Shared S)
      → Separate h
      → row_at other (unregister_at email id h)
        ≡ ite (text_discrete email other) (erase ℕ_discrete id (row_at email h)) (row_at other h)
  unfolding row_at unregister_at erase
  row_at-unregister_at email other id h v =
      elim (Option-cases (lookup text_discrete email h.rows)) [
        | inl e ↦ ground arith
        | inr (a, e) ↦
            let conns = erase ℕ_discrete id (h.heap a) in
            ground (arith, lookup-rows_after email other conns h.rows, v.apart email other a e)
      ]

  pub conn_at-register_at :
      (email other : Text) (id : ℕ) (s : S) (h : Shared S)
      → Separate h
      → conn_at other id (register_at email s h)
        ≡ ite
            (text_discrete email other)
            (ite (ℕ_discrete ((h.next_id + 1) % int64_mod) id) (some s) (conn_at other id h))
            (conn_at other id h)
  unfolding conn_at
  conn_at-register_at email other id s h v =
      let new = (h.next_id + 1) % int64_mod in
      rw (row_at-register_at email other s h v)
        (ground (arith, lookup-insert ℕ_discrete new id s (row_at email h)))

  pub conn_at-unregister_at :
      (email other : Text) (id i : ℕ) (h : Shared S)
      → Separate h
      → conn_at other i (unregister_at email id h)
        ≡ ite
            (text_discrete email other)
            (ite (ℕ_discrete id i) none (conn_at other i h))
            (conn_at other i h)
  unfolding conn_at
  conn_at-unregister_at email other id i h v =
      rw (row_at-unregister_at email other id h v)
        (ground (arith, lookup-erase ℕ_discrete id i (row_at email h)))

  pub next_id-register_at :
      (email : Text) (s : S) (h : Shared S)
      → (register_at email s h).next_id ≡ (h.next_id + 1) % int64_mod
  unfolding register_at
  next_id-register_at email s h = ground arith

  pub next_id-unregister_at :
      (email : Text) (id : ℕ) (h : Shared S) → (unregister_at email id h).next_id ≡ h.next_id
  unfolding unregister_at
  next_id-unregister_at email id h = ground arith

  pub next_id-register :
      (email : Text) (s : S) (h : ConnectionHub S)
      → (register email s h).0.next_id ≡ (h.next_id + 1) % int64_mod
  unfolding register
  next_id-register email s h = refl

  pub next_id-unregister :
      (email : Text) (id : ℕ) (h : ConnectionHub S) → (unregister email id h).next_id ≡ h.next_id
  unfolding unregister
  next_id-unregister email id h = ground arith

  -- The small-step hub and the hub of whole calls show the same connections.
  pub record Shows (h : Shared S) (g : ConnectionHub S) : Type 0 where
    pub issued : h.next_id ≡ g.next_id
    pub conns : (e : Text) (i : ℕ) → conn_at e i h ≡ conn e i g

  -- What `SendToUser` itself does to the hub shows nowhere.
  ranging-Shows :
      (h : Shared S) (g : ConnectionHub S) (readers : List (Text × ℕ))
      → Shows h g
      → Shows (record h { ranging = readers }) g
  unfolding conn_at row_at
  ranging-Shows h g readers same = record { issued = same.issued; conns = same.conns }

  pub new-Shows : Shows new_shared new_connection_hub
  unfolding new_shared new_connection_hub conn_at row_at conn lookup
  new-Shows = record { issued = refl; conns = λ e i. refl }

  pub register-Shows :
      (email : Text) (s : S) (h : Shared S) (g : ConnectionHub S)
      → Separate h
      → Shows h g
      → Shows (register_at email s h) (register email s g).0
  register-Shows email s h g v same = record {
    issued = ground (arith, next_id-register_at email s h, next_id-register email s g, same.issued);
    conns = λ e i. ground (
      arith,
      conn_at-register_at email e i s h v,
      conn-register email e i s g,
      same.conns e i,
      same.issued,
    );
  }

  pub unregister-Shows :
      (email : Text) (id : ℕ) (h : Shared S) (g : ConnectionHub S)
      → Separate h
      → Shows h g
      → Shows (unregister_at email id h) (unregister email id g)
  unregister-Shows email id h g v same = record {
    issued =
        ground
          (arith, next_id-unregister_at email id h, next_id-unregister email id g, same.issued);
    conns = λ e i. ground (
      arith,
      conn_at-unregister_at email e id i h v,
      conn-unregister email e id i g,
      same.conns e i,
    );
  }

-- The calls of `Register` and `Unregister` of a run, in the order in which they held the lock.
pub history : {S : Type 0} → {h k : Shared S} → Reach h k → List (Action S)
history here = []
history (next r (Steps.registers email s)) = history r ++ registers email s ∷ []
history (next r (Steps.unregisters email id)) = history r ++ unregisters email id ∷ []
history (next r (Steps.looks email a found full)) = history r
history (next r (Steps.finishes n)) = history r

module _ {S W : Type 0} (net : StreamSender S W) (order : Conns S → Conns S) (w : W) where
  Reach-Shows :
      {h : Shared S}
      → (reach : Reach new_shared h)
      → Shows h (run net order (history reach) new_connection_hub w).0
  unfolding history run
  Reach-Shows here = new-Shows
  Reach-Shows (next {k} r (Steps.registers email s)) =
      rw (run-registers net order (history r) email s new_connection_hub w) (
        register-Shows email s k (run net order (history r) new_connection_hub w).0
          (Reach-Separate r new_shared-Separate) (Reach-Shows r))
  Reach-Shows (next {k} r (Steps.unregisters email id)) =
      rw (run-unregisters net order (history r) email id new_connection_hub w) (
        unregister-Shows email id k (run net order (history r) new_connection_hub w).0
          (Reach-Separate r new_shared-Separate) (Reach-Shows r))
  Reach-Shows (next {k} r (Steps.looks email a found full)) =
      ranging-Shows k (run net order (history r) new_connection_hub w).0 ((email, a) ∷ k.ranging)
        (Reach-Shows r)
  Reach-Shows (next {k} r (Steps.finishes n)) =
      ranging-Shows k (run net order (history r) new_connection_hub w).0 (without n k.ranging)
        (Reach-Shows r)

  -- In every state that the goroutines reach from a new hub, whatever their steps and the reads of
  -- `SendToUser` between them: an id names for a user the stream that it names in the hub of Hub after
  -- the same `Register` and `Unregister` calls one by one, in the order in which they held the lock.
  pub steps_linearize :
      (h : Shared S) (reach : Reach new_shared h) (email : Text) (id : ℕ)
      → conn_at email id h ≡ conn email id (run net order (history reach) new_connection_hub w).0
  steps_linearize h reach email id = (Reach-Shows reach).conns email id
