-- ===== src/Hub/Shared/Heap.antt =====
-- What `Register` and `Unregister` make of the maps.
use rea_time_chat_g_rpc.Base.{
  ℕ, ◌+◌, ◌%◌, ◌≡◌, ◌⊎◌, sym, inl, inr, none, some, [], arith, Text, text_discrete, ℕ_discrete,
  lookup, insert, lookup-erase, Option-cases,
}
use rea_time_chat_g_rpc.Hub.{int64_mod}
use rea_time_chat_g_rpc.Hub.Shared.{Shared, register_at, unregister_at}

module _ {S : Type 0} (email : Text) where
  pub heap-register_at :
      (s : S) (h : Shared S) (a : ℕ)
      → let h' = register_at email s h in
        let id = (h.next_id + 1) % int64_mod in
        (h'.heap a ≡ h.heap a)
        ⊎ ((lookup text_discrete email h.rows ≡ some a)
            × (h'.heap a ≡ insert ℕ_discrete id s (h.heap a)))
        ⊎ ((a ≡ h.fresh) × (h'.heap a ≡ insert ℕ_discrete id s []))
  unfolding register_at
  heap-register_at s h a = elim (Option-cases (lookup text_discrete email h.rows)) [
    | inl p ↦ elim (ℕ_discrete h.fresh a) [
      | yes e ↦ inr (inr (sym e, ground arith))
      | no n ↦ inl (ground arith)
    ]
    | inr (b, p) ↦ elim (ℕ_discrete b a) [
      | yes e ↦ inr (inl (ground arith, ground arith))
      | no n ↦ inl (ground arith)
    ]
  ]

  pub heap-new_row :
      (s : S) (h : Shared S)
      → lookup text_discrete email h.rows ≡ none
      → (register_at email s h).heap h.fresh ≡ insert ℕ_discrete ((h.next_id + 1) % int64_mod) s []
  unfolding register_at
  heap-new_row s h free = ground arith

  -- A map only loses connections.
  pub heap-unregister_at :
      (gone : ℕ) (h : Shared S) (a id : ℕ) (s : S)
      → lookup ℕ_discrete id ((unregister_at email gone h).heap a) ≡ some s
      → lookup ℕ_discrete id (h.heap a) ≡ some s
  unfolding unregister_at
  heap-unregister_at gone h a id s p = elim (Option-cases (lookup text_discrete email h.rows)) [
    | inl q ↦ ground arith
    | inr (b, q) ↦ ground (arith, lookup-erase ℕ_discrete gone id (h.heap b))
  ]
