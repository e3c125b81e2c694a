-- ===== src/Hub/Shared.antt =====
-- cmd/api/hub.go in smaller steps: the maps of connections are objects of a heap, so that a call of
-- `SendToUser` goes on reading a map after it has released the lock. `Register` and `Unregister` hold
-- the lock for writing, and are one step each.
pub mod Steps
pub mod Heap
pub mod Rows
pub mod Linear
mod Tests
use rea_time_chat_g_rpc.Base.{
  ℕ, ◌+◌, ◌%◌, ◌≡◌, ◌≢◌, update, Option, none, some, List, [], ◌∷◌, ite, Text, text_discrete,
  ℕ_discrete, length, ◌==◌, if◌then◌else◌, lookup, insert, erase,
}
use rea_time_chat_g_rpc.Hub.{Conns, int64_mod}

-- `rows` is `h.streams` with the addresses of its maps. `ranging` holds the user and the address of
-- every call of `SendToUser` that is past its lock and still reads its map.
pub record Shared (S : Type 0) : Type 0 where
  pub heap : ℕ → Conns S
  pub fresh : ℕ
  pub rows : List (Text × ℕ)
  pub next_id : ℕ
  pub ranging : List (Text × ℕ)

module _ {S : Type 0} where
  unfoldable pub new_shared : Shared S
  new_shared = record { heap = λ a. []; fresh = 0; rows = []; next_id = 0; ranging = [] }

  -- `Register`: a row that is missing gets a new map.
  unfoldable pub register_at : Text → S → Shared S → Shared S
  register_at email s h =
      let id = (h.next_id + 1) % int64_mod in
      elim (lookup text_discrete email h.rows) [
        | none ↦ record h {
          heap = update h.heap h.fresh (insert ℕ_discrete id s []);
          fresh = h.fresh + 1;
          rows = insert text_discrete email h.fresh h.rows;
          next_id = id;
        }
        | some a ↦ record h {
          heap = update h.heap a (insert ℕ_discrete id s (h.heap a));
          next_id = id;
        }
      ]

  -- `delete(h.streams, email)`, for an empty map
  unfoldable pub rows_after : Text → Conns S → List (Text × ℕ) → List (Text × ℕ)
  rows_after email conns rows = if length conns == 0 then erase text_discrete email rows else rows

  -- `Unregister`
  unfoldable pub unregister_at : Text → ℕ → Shared S → Shared S
  unregister_at email id h = elim (lookup text_discrete email h.rows) [
    | none ↦ h
    | some a ↦
        let conns = erase ℕ_discrete id (h.heap a) in
        record h { heap = update h.heap a conns; rows = rows_after email conns h.rows }
  ]

  -- The map of a user, empty if there is none.
  unfoldable pub row_at : Text → Shared S → Conns S
  row_at email h = elim (lookup text_discrete email h.rows) [ none ↦ [] | some a ↦ h.heap a ]

  -- The stream that `id` names under `email`.
  pub conn_at : Text → ℕ → Shared S → Option S
  conn_at email id h = lookup ℕ_discrete id (row_at email h)
