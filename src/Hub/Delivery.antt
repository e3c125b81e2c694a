-- ===== src/Hub/Delivery.antt =====
-- What `SendToUser` does, whatever the order in which `range` visits the connections.
use rea_time_chat_g_rpc.Base.{
  ℕ, ◌≡◌, ◌≢◌, ◌↔◌, refl, ◌⊎◌, inl, inr, Bool, true, false, ◌&&◌, ◌||◌, Option, none, some, List,
  [], ◌∷◌, ◌++◌, arith, ite, Text, text_discrete, ℕ_discrete, lookup, UniqueKeys, count,
  SameEntries, is_some, Option-cases, ltb, ◌==◌, if◌then◌else◌,
}
use rea_time_chat_g_rpc.Errors.{Error}
use rea_time_chat_g_rpc.Wire.{ChatStreamResponse, StreamSender}
use rea_time_chat_g_rpc.Hub.{
  Conns, ConnectionHub, first_error, note_failed, send_each, send_to_conns, send_to_user,
  unregister, unregister_all, row, conn, not_connected,
}
use rea_time_chat_g_rpc.Hub.Routing.{conn-unregister}
use rea_time_chat_g_rpc.Hub.Invariant.{Inv, unregister_all-Inv}

abbrev mem : ℕ → List ℕ → Bool
mem i [] = false
mem i (j ∷ js) = j == i || mem i js

mem-append : (i : ℕ) (xs ys : List ℕ) → mem i (xs ++ ys) ≡ (mem i xs || mem i ys)
mem-append i [] ys = refl
mem-append i (x ∷ xs) ys = ground (arith, mem-append i xs ys)

module _ {S : Type 0} where
  conn-unregister_all :
      (email other : Text) (ids : List ℕ) (i : ℕ) (h : ConnectionHub S)
      → conn other i (unregister_all email ids h)
        ≡ ite
            (text_discrete email other)
            (if mem i ids then none else conn other i h)
            (conn other i h)
  unfolding unregister_all
  conn-unregister_all email other [] i h = ground arith
  conn-unregister_all email other (id ∷ ids) i h = ground (
    arith,
    conn-unregister_all email other ids i (unregister email id h),
    conn-unregister email other id i h,
  )

-- The iteration visits every entry of the map exactly once, in an order that Go does not specify.
abbrev pub Visits : {S : Type 0} → (Conns S → Conns S) → Type 0
Visits {S} order = (conns : Conns S) → SameEntries (order conns) conns

module _ {S W : Type 0} (net : StreamSender S W) where
  -- The two ways of `SendToUser`: an offline user, and the loop over the user's connections.
  pub send_to_user-row :
      (order : Conns S → Conns S) (email : Text) (resp : ChatStreamResponse) (h : ConnectionHub S)
      (w : W)
      → Inv h
      → ((row email h.streams ≡ [])
          × (send_to_user net order email resp h w ≡ (some (not_connected email), h, w)))
        ⊎ ((row email h.streams ≢ [])
            × (send_to_user net order email resp h w
                ≡ send_to_conns net email resp (order (row email h.streams)) h w))
  unfolding send_to_user
  send_to_user-row order email resp h w v = ground (arith, v.filled email)

module _ {S W : Type 0} (net : StreamSender S W) (order : Conns S → Conns S) where
  -- Whatever the streams do, `SendToUser` adds no connection, and removes none of another user.
  pub send_to_user-shrinks :
      (email other : Text) (i : ℕ) (resp : ChatStreamResponse) (h : ConnectionHub S) (w : W)
      → let after = conn other i (send_to_user net order email resp h w).1 in
        (after ≡ conn other i h) ⊎ ((after ≡ none) × (email ≡ other))
  unfolding send_to_user send_to_conns
  send_to_user-shrinks email other i resp h w =
      elim (Option-cases (lookup text_discrete email h.streams)) [
        | inl e ↦ inl (ground arith)
        | inr (conns, e) ↦
            let ids = (send_each net (order conns) resp none [] w).1 in
            ground (arith, conn-unregister_all email other ids i h)
      ]

-- What is left of a connection of the user who is sent something.
abbrev pub survivor : {S : Type 0} → (S → Bool) → Option S → Option S
survivor broken none = none
survivor broken (some s) = if broken s then none else some s

module _ {S W : Type 0} (net : StreamSender S W) (broken : S → Bool) where
  -- While the call lasts a stream is broken or not: `Send` fails exactly on the broken ones.
  abbrev pub Fates : Type 0
  Fates = (s : S) (r : ChatStreamResponse) (w : W) → is_some (net.send s r w).0 ≡ broken s

  -- What the entry of one connection contributes to `failedIDs` with the id `i`.
  abbrev fails_as : ℕ → ℕ × S → Bool
  fails_as i (id, s) = id == i && broken s

  lookup-none-fails :
      (i : ℕ) (conns : Conns S) → lookup ℕ_discrete i conns ≡ none → count (fails_as i) conns ≡ 0
  unfolding lookup
  lookup-none-fails i [] e = refl
  lookup-none-fails i ((j, s) ∷ conns) e = ground (arith, lookup-none-fails i conns)

  count-fails_as :
      (i : ℕ) (conns : Conns S)
      → UniqueKeys ℕ_discrete conns
      → ltb 0 (count (fails_as i) conns)
        ≡ elim (lookup ℕ_discrete i conns) [ none ↦ false | some s ↦ broken s ]
  unfolding lookup
  count-fails_as i [] u = refl
  count-fails_as i ((j, s) ∷ conns) u =
      ground (arith, count-fails_as i conns u.1, lookup-none-fails i conns)

  module _ (fates : Fates) (resp : ChatStreamResponse) where
    -- The failed ids are those of the broken connections.
    mem-send_each :
        (conns : Conns S) (first : Option Error) (failed : List ℕ) (w : W) (i : ℕ)
        → mem i (send_each net conns resp first failed w).1
          ≡ (mem i failed || ltb 0 (count (fails_as i) conns))
    unfolding send_each
    mem-send_each [] first failed w i = ground arith
    mem-send_each ((id, s) ∷ conns) first failed w i =
        let r = net.send s resp w in
        ground (
          arith,
          mem-send_each conns (first_error first r.0) (note_failed failed id r.0) r.1 i,
          fates s resp w,
          mem-append i failed (id ∷ []),
        )

    -- An error is returned exactly if some connection is broken.
    is_some-send_each :
        (conns : Conns S) (first : Option Error) (failed : List ℕ) (w : W)
        → is_some (send_each net conns resp first failed w).0
          ≡ (is_some first || ltb 0 (count (λ c. broken c.1) conns))
    unfolding send_each
    is_some-send_each [] first failed w = ground arith
    is_some-send_each ((id, s) ∷ conns) first failed w =
        let r = net.send s resp w in
        ground (
          arith,
          is_some-send_each conns (first_error first r.0) (note_failed failed id r.0) r.1,
          fates s resp w,
        )

    module _ (order : Conns S → Conns S) (visits : Visits order) where
      conn-send_to_conns :
          (email other : Text) (i : ℕ) (h : ConnectionHub S) (w : W)
          → Inv h
          → conn other i (send_to_conns net email resp (order (row email h.streams)) h w).1
            ≡ ite (text_discrete email other) (survivor broken (conn other i h)) (conn other i h)
      unfolding send_to_conns conn
      conn-send_to_conns email other i h w v =
          let conns = row email h.streams in
          ground (
            arith,
            conn-unregister_all email other (send_each net (order conns) resp none [] w).1 i h,
            mem-send_each (order conns) none [] w i,
            visits conns (fails_as i),
            count-fails_as i conns (v.distinct email),
          )

      -- For a hub that meets the invariant, if `Send` fails exactly on the broken streams and
      -- `range` visits each connection once: when `SendToUser` returns, the broken connections of
      -- the user are gone, the healthy ones are kept, and other users' connections stand as they
      -- were.
      pub conn-send_to_user :
          (email other : Text) (i : ℕ) (h : ConnectionHub S) (w : W)
          → Inv h
          → conn other i (send_to_user net order email resp h w).1
            ≡ ite (text_discrete email other) (survivor broken (conn other i h)) (conn other i h)
      conn-send_to_user email other i h w v = elim (send_to_user-row net order email resp h w v) [
        | inl (empty, e) ↦ rw e (unfold conn lookup in ground arith)
        | inr (_, e) ↦ rw e (conn-send_to_conns email other i h w v)
      ]

      -- For a hub that meets the invariant, if `Send` fails exactly on the broken streams and
      -- `range` visits each connection once: `SendToUser` reports an error exactly if the user has
      -- no connection or a broken one.
      pub send_to_user-error_iff :
          (email : Text) (h : ConnectionHub S) (w : W)
          → Inv h
          → ((send_to_user net order email resp h w).0 ≢ none) ↔ (
              (row email h.streams ≡ [])
              ⊎ (ltb 0 (count (λ c. broken c.1) (row email h.streams)) ≡ true))
      send_to_user-error_iff email h w v = elim (send_to_user-row net order email resp h w v) [
        | inl (empty, e) ↦ rw e ((λ _. inl empty), (λ _ p. cc))
        | inr (full, e) ↦ rw e (
            unfold send_to_conns in
            ground (
              arith,
              is_some-send_each (order (row email h.streams)) none [] w,
              visits (row email h.streams) (λ c. broken c.1),
            ))
      ]

      -- `SendToUser` keeps the invariant of the hub, if `Send` fails exactly on the broken streams
      -- and `range` visits each connection once.
      pub send_to_user-Inv :
          (email : Text) (h : ConnectionHub S) (w : W)
          → Inv h
          → Inv (send_to_user net order email resp h w).1
      send_to_user-Inv email h w v = elim (send_to_user-row net order email resp h w v) [
        | inl (_, e) ↦ rw e v
        | inr (_, e) ↦ rw e (unfold send_to_conns in unregister_all-Inv email _ h v)
      ]
