-- ===== src/Api/Turns/Kept.antt =====
-- The connections of the running handlers.
use rea_time_chat_g_rpc.Base.{
  ℕ, ◌+◌, ◌<◌, ◌≤◌, ◌%◌, ◌≡◌, ◌≢◌, ◌∙◌, ◌⊎◌, inl, inr, refl, sym, subst, ap, Option, some, List, [],
  ◌++◌, arith, Text, ℕ_discrete, Bool, true, false, Has, Has-right, update,
}
use rea_time_chat_g_rpc.Auth.{Claims}
use rea_time_chat_g_rpc.Hub.{int64_mod}
use rea_time_chat_g_rpc.Hub.Shared.{Shared, register_at, unregister_at, conn_at}
use rea_time_chat_g_rpc.Hub.Shared.Steps.{Separate, register_at-Separate, unregister_at-Separate}
use rea_time_chat_g_rpc.Hub.Shared.Linear.{
  conn_at-register_at, conn_at-unregister_at, next_id-register_at, next_id-unregister_at,
}
use rea_time_chat_g_rpc.Api.Chats.{Session}
use rea_time_chat_g_rpc.Api.Turns.State.{Phase, receiving, left, Handler}
use rea_time_chat_g_rpc.Api.Turns.Moves.{handlers-update, phases-update}
use rea_time_chat_g_rpc.Api.Turns.Failures.{Blames, Blames-more}
use rea_time_chat_g_rpc.Api.Turns.Owners.{next_session}

abbrev pub is_left : {S : Type 0} → Phase S → Bool
is_left left = true
is_left _ = false

-- The address and the id under which a handler has registered its stream
abbrev pub key : {S : Type 0} → Session S → Text × ℕ
key s = (s.claims.email, s.conn_id)

abbrev pub Named : {S : Type 0} → Shared S → Session S → Type 0
Named h s = conn_at s.claims.email s.conn_id h ≡ some s.stream

-- After `n` calls on the hub and the failures `fs`: no two handlers have one id, and a running handler is in
-- the hub if no `Send` on its connection has failed.
pub record Kept {S : Type 0} (h : Shared S) (hs : ℕ → Option (Handler S)) (fs : List (Text × ℕ))
    (n : ℕ) : Type 0 where
  pub separate : Separate h
  pub few : h.next_id ≤ n
  pub known : (i : ℕ) (x : Handler S) → hs i ≡ some x → x.session.conn_id ≤ h.next_id
  pub apart :
      (i j : ℕ) (x y : Handler S)
      → hs i ≡ some x
      → hs j ≡ some y
      → x.session.conn_id ≡ y.session.conn_id
      → i ≡ j
  pub blamed : (i : ℕ) (x : Handler S) → hs i ≡ some x → Blames fs x.phase
  pub named :
      (i : ℕ) (x : Handler S)
      → hs i ≡ some x
      → is_left x.phase ≡ false
      → ¬ Has (key x.session) fs
      → Named h x.session

module _ {S : Type 0} where
  -- Where a handler that stands in the table after a move stood before.
  pub before :
      (hs : ℕ → Option (Handler S)) (i : ℕ) (x : Handler S) (p : Phase S)
      → hs i ≡ some x
      → is_left x.phase ≡ false
      → (j : ℕ) (y : Handler S) → update hs i (some (record x { phase = p })) j ≡ some y
      → (z : Handler S) × (hs j ≡ some z)
        × (z.session ≡ y.session)
        × (is_left y.phase ≡ false → is_left z.phase ≡ false)
  before hs i x p found runs =
      handlers-update
        (λ j y.
          (z : Handler S) × (hs j ≡ some z)
          × (z.session ≡ y.session)
          × (is_left y.phase ≡ false → is_left z.phase ≡ false))
        hs i (record x { phase = p }) (x, found, refl, λ r. runs)
        (λ j y other q. (y, q, refl, λ r. r))

  module _ (h : Shared S) (hs : ℕ → Option (Handler S)) (fs : List (Text × ℕ)) (n : ℕ)
      (v : Kept h hs fs n) (i : ℕ) (x : Handler S) (p : Phase S) (found : hs i ≡ some x)
      (runs : is_left x.phase ≡ false) where
    abbrev after : ℕ → Option (Handler S)
    after = update hs i (some (record x { phase = p }))

    pub Kept-moves :
        (k : Shared S) (gs : List (Text × ℕ)) (m : ℕ)
        → Separate k
        → k.next_id ≡ h.next_id
        → n ≤ m
        → Blames (gs ++ fs) p
        → ((j : ℕ) (y : Handler S)
            → after j ≡ some y
            → is_left y.phase ≡ false
            → ¬ Has (key y.session) fs
            → Named h y.session
            → Named k y.session)
        → Kept k after (gs ++ fs) m
    Kept-moves k gs m separate same more blamed still =
        let was = before hs i x p found runs in
        record {
          separate = separate;
          few = omega (arith, v.few, same);
          known = λ j y q.
              let (z, f, s, a) = was j y q in
              subst (λ t. t.conn_id ≤ k.next_id) s (omega (arith, v.known j z f, same));
          apart = λ j l y z q r e.
              let (y', f, s, a) = was j y q in
              let (z', g, t, b) = was l z r in v.apart j l y' z' f g (cc);
          blamed =
              phases-update (λ j. Blames (gs ++ fs)) hs i (record x { phase = p }) blamed
                (λ j y other q. Blames-more gs fs y.phase (v.blamed j y q));
          named = λ j y q r free.
              let (z, f, s, a) = was j y q in
              let clean : ¬ Has (key y.session) fs =
                λ b. free (Has-right (key y.session) gs fs b) in
              still j y q r clean (
                subst (Named h) s
                  (v.named j z f (a r) (subst (λ t. ¬ Has (key t) fs) (sym s) clean)));
        }

    -- The hub stays as it is.
    pub Kept-waits : (gs : List (Text × ℕ)) → Blames (gs ++ fs) p → Kept h after (gs ++ fs) n
    Kept-waits gs b =
        Kept-moves h gs n v.separate refl (omega arith) b (λ j y q r free there. there)

    -- A call of `Unregister`, for a connection that is failed or the own one of a handler that ends.
    pub Kept-unregisters :
        (email : Text) (id : ℕ)
        → Blames fs p
        → ((j : ℕ) (y : Handler S)
            → after j ≡ some y
            → is_left y.phase ≡ false
            → ¬ Has (key y.session) fs
            → key y.session ≢ (email, id))
        → Kept (unregister_at email id h) after fs (n + 1)
    Kept-unregisters email id b others =
        Kept-moves (unregister_at email id h) [] (n + 1)
          (unregister_at-Separate email id h v.separate) (next_id-unregister_at email id h)
          (omega arith) b
          (λ j y q r free there.
            let apart = others j y q r free in
            ground (
              arith,
              apart,
              there,
              conn_at-unregister_at email y.session.claims.email id y.session.conn_id h v.separate,
            ))

  -- No running handler has the connection of a handler that has left.
  pub left-apart :
      (h : Shared S) (hs : ℕ → Option (Handler S)) (fs : List (Text × ℕ)) (n : ℕ)
      → Kept h hs fs n
      → (i : ℕ) (x : Handler S) → hs i ≡ some x
      → (j : ℕ) (y : Handler S) → update hs i (some (record x { phase = left })) j ≡ some y
      → is_left y.phase ≡ false
      → ¬ Has (key y.session) fs
      → key y.session ≢ key x.session
  left-apart h hs fs n v i x found j y q run free =
      handlers-update (λ j y. is_left y.phase ≡ false → key y.session ≢ key x.session) hs i
        (record x { phase = left }) (λ never e. absurd (ground arith))
        (λ j y other f run e. other (sym (v.apart j i y x f found (ap (λ k. k.1) e)))) j y q run

  module _ (claims : Claims) (s : S) (h : Shared S) (hs : ℕ → Option (Handler S))
      (fs : List (Text × ℕ)) (n : ℕ) (v : Kept h hs fs n) (room : n + 1 < int64_mod) (i : ℕ) where
    abbrev newcomer : Handler S
    newcomer = record { session = next_session claims s h []; phase = receiving }

    next_id-fresh : (h.next_id + 1) % int64_mod ≡ h.next_id + 1
    next_id-fresh = ground (arith, v.few)

    next_id-grows : (register_at claims.email s h).next_id ≡ h.next_id + 1
    next_id-grows = next_id-register_at claims.email s h ∙ next_id-fresh

    newcomer-id : (y : Handler S) → newcomer ≡ y → y.session.conn_id ≡ h.next_id + 1
    newcomer-id y e = sym (ap (λ z. z.session.conn_id) e) ∙ next_id-fresh

    -- A handler is the new one or an old one.
    among :
        (j : ℕ) (y : Handler S)
        → update hs i (some newcomer) j ≡ some y
        → ((i ≡ j) × (newcomer ≡ y)) ⊎ ((i ≢ j) × (hs j ≡ some y))
    among j y q = elim (ℕ_discrete i j) [
      | yes e ↦ inl (e, ground arith)
      | no m ↦ inr (m, ground arith)
    ]

    newcomer-Named : Named (register_at claims.email s h) newcomer.session
    newcomer-Named = ground (
      arith,
      conn_at-register_at claims.email claims.email newcomer.session.conn_id s h v.separate,
    )

    old-Named :
        (y : Session S) → y.conn_id ≤ h.next_id → Named h y → Named (register_at claims.email s h) y
    old-Named y old there = ground (
      arith,
      conn_at-register_at claims.email y.claims.email y.conn_id s h v.separate,
      next_id-fresh,
    )

    pub Kept-opens : Kept (register_at claims.email s h) (update hs i (some newcomer)) fs (n + 1)
    Kept-opens = record {
      separate = register_at-Separate claims.email s h v.separate;
      few = omega (arith, v.few, next_id-grows);
      known = λ j y q. elim (among j y q) [
        | inl (e, same) ↦ omega (arith, newcomer-id y same, next_id-grows)
        | inr (m, f) ↦ omega (arith, v.known j y f, next_id-grows)
      ];
      apart = λ j l y z q r e. elim (among j y q) [
        | inl (a, same) ↦ elim (among l z r) [
          | inl (b, _) ↦ sym a ∙ b
          | inr (_, g) ↦ absurd (omega (arith, newcomer-id y same, v.known l z g, e))
        ]
        | inr (_, f) ↦ elim (among l z r) [
          | inl (b, same) ↦ absurd (omega (arith, newcomer-id z same, v.known j y f, e))
          | inr (_, g) ↦ v.apart j l y z f g e
        ]
      ];
      blamed = λ j y q. elim (among j y q) [
        | inl (_, same) ↦ subst (λ z. Blames fs z.phase) same tt
        | inr (_, f) ↦ v.blamed j y f
      ];
      named = λ j y q run free. elim (among j y q) [
        | inl (_, same) ↦
            subst (λ z. Named (register_at claims.email s h) z.session) same newcomer-Named
        | inr (_, f) ↦ old-Named y.session (v.known j y f) (v.named j y f run free)
      ];
    }
