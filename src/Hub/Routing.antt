-- ===== src/Hub/Routing.antt =====
-- Which stream a connection id names after `Register` and `Unregister`.
use rea_time_chat_g_rpc.Base.{
  ℕ, ◌+◌, ◌%◌, ◌≡◌, ◌≢◌, refl, inl, inr, none, some, List, [], ◌∷◌, arith, ite, Text, text_discrete,
  ℕ_discrete, lookup, insert, erase, lookup-insert, lookup-erase, Option-cases,
}
use rea_time_chat_g_rpc.Hub.{
  Conns, ConnectionHub, int64_mod, open_row, put, register, close_row, unregister, row, conn,
}

module _ {S : Type 0} where
  -- `Register` opens the row of the user and puts the stream in it.
  pub lookup-put :
      (email other : Text) (id : ℕ) (s : S) (m : List (Text × Conns S))
      → lookup text_discrete other (put email id s (open_row email m))
        ≡ ite
            (text_discrete email other)
            (some (insert ℕ_discrete id s (row email m)))
            (lookup text_discrete other m)
  unfolding open_row put
  lookup-put email other id s m =
      let next = insert ℕ_discrete id s (row email m) in
      ground (
        arith,
        lookup-insert text_discrete email email [] m,
        lookup-insert text_discrete email other [] m,
        lookup-insert text_discrete email other next m,
        lookup-insert text_discrete email other next (insert text_discrete email [] m),
      )

  pub row-put :
      (email other : Text) (id : ℕ) (s : S) (m : List (Text × Conns S))
      → row other (put email id s (open_row email m))
        ≡ ite (text_discrete email other) (insert ℕ_discrete id s (row email m)) (row other m)
  row-put email other id s m = ground (arith, lookup-put email other id s m)

  pub register-id :
      (email : Text) (s : S) (h : ConnectionHub S)
      → (register email s h).1 ≡ (h.next_id + 1) % int64_mod
  unfolding register
  register-id email s h = refl

  -- After `Register` the new id of the user names the new stream, and every other id what it named
  -- before.
  pub conn-register :
      (email other : Text) (id : ℕ) (s : S) (h : ConnectionHub S)
      → let new = (h.next_id + 1) % int64_mod in
        conn other id (register email s h).0
        ≡ ite
            (text_discrete email other)
            (ite (ℕ_discrete new id) (some s) (conn other id h))
            (conn other id h)
  unfolding conn register
  conn-register email other id s h =
      let new = (h.next_id + 1) % int64_mod in
      rw (row-put email other new s h.streams)
        (ground (arith, lookup-insert ℕ_discrete new id s (row email h.streams)))

  pub lookup-close_row :
      (email other : Text) (conns : Conns S) (m : List (Text × Conns S))
      → lookup text_discrete other (close_row email conns m)
        ≡ ite
            (text_discrete email other)
            (elim conns [ [] ↦ none | c ∷ cs ↦ some (c ∷ cs) ])
            (lookup text_discrete other m)
  unfolding close_row
  lookup-close_row email other [] m = ground (arith, lookup-erase text_discrete email other m)
  lookup-close_row email other (c ∷ cs) m =
      ground (arith, lookup-insert text_discrete email other (c ∷ cs) m)

  row-close_row :
      (email other : Text) (conns : Conns S) (m : List (Text × Conns S))
      → row other (close_row email conns m) ≡ ite (text_discrete email other) conns (row other m)
  row-close_row email other [] m = ground (arith, lookup-close_row email other [] m)
  row-close_row email other (c ∷ cs) m = ground (arith, lookup-close_row email other (c ∷ cs) m)

  first_conn :
      (conns : Conns S) → conns ≢ [] → (i : ℕ) × (s : S) × (lookup ℕ_discrete i conns ≡ some s)
  unfolding lookup
  first_conn [] full = absurd (full refl)
  first_conn ((i, s) ∷ conns) full = (i, s, ground arith)

  -- A row that is not empty holds a connection, and a connection is in a row.
  pub row-conn :
      (email : Text) (h : ConnectionHub S)
      → row email h.streams ≢ []
      → (i : ℕ) × (s : S) × (conn email i h ≡ some s)
  unfolding conn
  row-conn email h full = first_conn (row email h.streams) full

  pub conn-row :
      (email : Text) (i : ℕ) (h : ConnectionHub S) (s : S)
      → conn email i h ≡ some s
      → row email h.streams ≢ []
  unfolding conn lookup
  conn-row email i h s e empty = ground (arith, e, empty)

  -- `Unregister` takes the id out of the user's row.
  pub row-unregister :
      (email other : Text) (id : ℕ) (h : ConnectionHub S)
      → row other (unregister email id h).streams
        ≡ ite
            (text_discrete email other)
            (erase ℕ_discrete id (row email h.streams))
            (row other h.streams)
  unfolding unregister erase
  row-unregister email other id h = elim (Option-cases (lookup text_discrete email h.streams)) [
    | inl e ↦ ground arith
    | inr (conns, e) ↦
        ground (arith, row-close_row email other (erase ℕ_discrete id conns) h.streams)
  ]

  -- After `Unregister` the id names nothing, and every other id what it named before.
  pub conn-unregister :
      (email other : Text) (id i : ℕ) (h : ConnectionHub S)
      → conn other i (unregister email id h)
        ≡ ite
            (text_discrete email other)
            (ite (ℕ_discrete id i) none (conn other i h))
            (conn other i h)
  unfolding conn
  conn-unregister email other id i h =
      rw (row-unregister email other id h)
        (ground (arith, lookup-erase ℕ_discrete id i (row email h.streams)))
