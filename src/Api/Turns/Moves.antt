-- ===== src/Api/Turns/Moves.antt =====
-- What holds of every handler, when one of them has moved.
use rea_time_chat_g_rpc.Base.{ℕ, ◌≡◌, ◌≢◌, subst, some, Option, arith, ℕ_discrete, update}
use rea_time_chat_g_rpc.Api.Turns.State.{Handler, Phase}

pub handlers-update :
    {S : Type 0} (P : ℕ → Handler S → Type 0) (hs : ℕ → Option (Handler S)) (i : ℕ) (x : Handler S)
    → P i x
    → ((j : ℕ) (y : Handler S) → i ≢ j → hs j ≡ some y → P j y)
    → (j : ℕ) (y : Handler S) → update hs i (some x) j ≡ some y
    → P j y
handlers-update P hs i x moved others j y p = elim (ℕ_discrete i j) [
  | yes e ↦ let same : x ≡ y = ground arith in subst (P j) same (subst (λ k. P k x) e moved)
  | no n ↦ others j y n (ground arith)
]

pub phases-update :
    {S : Type 0} (P : ℕ → Phase S → Type 0) (hs : ℕ → Option (Handler S)) (i : ℕ) (x : Handler S)
    → P i x.phase
    → ((j : ℕ) (y : Handler S) → i ≢ j → hs j ≡ some y → P j y.phase)
    → (j : ℕ) (y : Handler S) → update hs i (some x) j ≡ some y
    → P j y.phase
phases-update P = handlers-update (λ j y. P j y.phase)
