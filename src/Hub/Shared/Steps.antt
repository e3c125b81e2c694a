-- ===== src/Hub/Shared/Steps.antt =====
-- The steps of the goroutines that share a hub, and what holds in every state that they reach.
use rea_time_chat_g_rpc.Base.{
  ℕ, ◌+◌, ◌<◌, ◌≤◌, ◌≡◌, ◌≢◌, ◌⊎◌, none, some, List, [], ◌∷◌, arith, Text, text_discrete, lookup,
  lookup-insert, lookup-erase, All, All-without, without,
}
use rea_time_chat_g_rpc.Hub.Shared.{Shared, new_shared, register_at, unregister_at, rows_after}

-- `looks` is the start of `SendToUser` for a user with a connection: it finds the map under the read lock,
-- and reads its length right after. It then goes on reading the map until `finishes`. The connections that
-- it unregisters at its end are steps of their own.
pub data Step {S : Type 0} (h : Shared S) : Shared S → Type 0 where
  registers : (email : Text) (s : S) → Step h (register_at email s h)
  unregisters : (email : Text) (id : ℕ) → Step h (unregister_at email id h)
  looks :
      (email : Text) (a : ℕ)
      → lookup text_discrete email h.rows ≡ some a
      → h.heap a ≢ []
      → Step h (record h { ranging = (email, a) ∷ h.ranging })
  finishes : (n : ℕ) → Step h (record h { ranging = without n h.ranging })

pub data Reach {S : Type 0} (h : Shared S) : Shared S → Type 0 where
  here : Reach h h
  next : {k l : Shared S} → Reach h k → Step k l → Reach h l

-- A map that is read belongs to the user for whom it is read, or to no user any more.
abbrev pub Owned : {S : Type 0} → Shared S → Text × ℕ → Type 0
Owned h (email, a) =
    (a < h.fresh) × ((f : Text) → lookup text_discrete f h.rows ≡ some a → f ≡ email)

-- No two users share a map.
pub record Separate {S : Type 0} (h : Shared S) : Type 0 where
  pub known : (e : Text) (a : ℕ) → lookup text_discrete e h.rows ≡ some a → a < h.fresh
  pub apart :
      (e f : Text) (a : ℕ)
      → lookup text_discrete e h.rows ≡ some a
      → lookup text_discrete f h.rows ≡ some a
      → e ≡ f
  pub owned : All (Owned h) h.ranging

module _ {S : Type 0} where
  pub new_shared-Separate : Separate (new_shared {S = S})
  unfolding new_shared lookup
  new_shared-Separate = record {
    known = λ e a p. absurd (cc);
    apart = λ e f a p q. absurd (cc);
    owned = tt;
  }

  -- Readers keep their owners where rows are only taken away or given a new map.
  All-Owned :
      (h k : Shared S)
      → h.fresh ≤ k.fresh
      → ((f : Text) (a : ℕ)
          → a < h.fresh
          → lookup text_discrete f k.rows ≡ some a
          → lookup text_discrete f h.rows ≡ some a)
      → (rs : List (Text × ℕ)) → All (Owned h) rs
      → All (Owned k) rs
  All-Owned h k le back [] o = tt
  All-Owned h k le back ((e, a) ∷ rs) o =
      ((omega (arith, o.0.0), λ f p. o.0.1 f (back f a o.0.0 p)), All-Owned h k le back rs o.1)

  module _ (email : Text) (s : S) (h : Shared S) where
    pub rows-register_at :
        (f : Text) (a : ℕ)
        → lookup text_discrete f (register_at email s h).rows ≡ some a
        → (lookup text_discrete f h.rows ≡ some a)
          ⊎ ((f ≡ email)
              × (a ≡ h.fresh)
              × (lookup text_discrete email h.rows ≡ none)
              × ((register_at email s h).fresh ≡ h.fresh + 1))
    unfolding register_at
    rows-register_at f a p = ground (arith, lookup-insert text_discrete email f h.fresh h.rows)

    pub fresh-register_at : h.fresh ≤ (register_at email s h).fresh
    unfolding register_at
    fresh-register_at = ground arith

    ranging-register_at : (register_at email s h).ranging ≡ h.ranging
    unfolding register_at
    ranging-register_at = ground arith

    pub register_at-Separate : Separate h → Separate (register_at email s h)
    register_at-Separate v = record {
      known = λ e a p. ground (arith, rows-register_at e a p, fresh-register_at, v.known e a);
      apart = λ e f a p q. ground (
        arith,
        rows-register_at e a p,
        rows-register_at f a q,
        v.known e a,
        v.known f a,
        v.apart e f a,
      );
      owned = rw ranging-register_at (
          All-Owned h (register_at email s h) fresh-register_at
            (λ f a below p. ground (arith, rows-register_at f a p)) h.ranging v.owned);
    }

  module _ (email : Text) (id : ℕ) (h : Shared S) where
    pub rows-unregister_at :
        (f : Text) (a : ℕ)
        → lookup text_discrete f (unregister_at email id h).rows ≡ some a
        → lookup text_discrete f h.rows ≡ some a
    unfolding unregister_at rows_after
    rows-unregister_at f a p = ground (arith, lookup-erase text_discrete email f h.rows)

    pub rest-unregister_at :
        ((unregister_at email id h).fresh ≡ h.fresh)
        × ((unregister_at email id h).ranging ≡ h.ranging)
    unfolding unregister_at
    rest-unregister_at = ground arith

    pub unregister_at-Separate : Separate h → Separate (unregister_at email id h)
    unregister_at-Separate v =
        let (same, still) = rest-unregister_at in
        record {
          known = λ e a p. rw same (v.known e a (rows-unregister_at e a p));
          apart = λ e f a p q. v.apart e f a (rows-unregister_at e a p) (rows-unregister_at f a q);
          owned = rw still (
              All-Owned h (unregister_at email id h) (omega (arith, same))
                (λ f a below p. rows-unregister_at f a p) h.ranging v.owned);
        }

  Step-Separate : {h k : Shared S} → Step h k → Separate h → Separate k
  Step-Separate {h} (registers email s) v = register_at-Separate email s h v
  Step-Separate {h} (unregisters email id) v = unregister_at-Separate email id h v
  Step-Separate {h} (looks email a found full) v = record {
    known = v.known;
    apart = v.apart;
    owned = ((v.known email a found, λ f p. v.apart f email a p found), v.owned);
  }
  Step-Separate {h} (finishes n) v = record {
    known = v.known;
    apart = v.apart;
    owned = All-without (Owned h) n h.ranging v.owned;
  }

  pub Reach-Separate : {h k : Shared S} → Reach h k → Separate h → Separate k
  Reach-Separate here v = v
  Reach-Separate (next r st) v = Step-Separate st (Reach-Separate r v)
