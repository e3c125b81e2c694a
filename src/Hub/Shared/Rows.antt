-- ===== src/Hub/Shared/Rows.antt =====
-- Hubs in smaller steps and hubs of whole calls that hold the same maps.
use rea_time_chat_g_rpc.Base.{ℕ, ◌+◌, ◌%◌, ◌<◌, ◌≡◌, refl, List, [], ◌∷◌, arith, Text, lookup}
use rea_time_chat_g_rpc.Hub.{
  ConnectionHub, int64_mod, new_connection_hub, register, unregister, unregister_all, row,
}
use rea_time_chat_g_rpc.Hub.Routing.{row-put, row-unregister}
use rea_time_chat_g_rpc.Hub.Invariant.{Inv, new_connection_hub-Inv, register-Inv, unregister-Inv}
use rea_time_chat_g_rpc.Hub.Shared.{Shared, new_shared, register_at, unregister_at, row_at}
use rea_time_chat_g_rpc.Hub.Shared.Steps.{
  Separate, new_shared-Separate, register_at-Separate, unregister_at-Separate,
}
use rea_time_chat_g_rpc.Hub.Shared.Linear.{
  row_at-register_at, row_at-unregister_at, next_id-register_at, next_id-unregister_at,
  next_id-unregister,
}

module _ {S : Type 0} where
  pub record Same (h : Shared S) (g : ConnectionHub S) : Type 0 where
    pub separate : Separate h
    pub inv : Inv g
    pub issued : h.next_id ≡ g.next_id
    pub rows : (e : Text) → row_at e h ≡ row e g.streams

  pub new_shared-Same : Same new_shared new_connection_hub
  unfolding new_shared new_connection_hub row_at lookup
  new_shared-Same = record {
    separate = new_shared-Separate;
    inv = new_connection_hub-Inv;
    issued = refl;
    rows = λ e. refl;
  }

  pub register-Same :
      (email : Text) (s : S) (h : Shared S) (g : ConnectionHub S)
      → g.next_id + 1 < int64_mod
      → Same h g
      → Same (register_at email s h) (register email s g).0
  unfolding register
  register-Same email s h g below same = record {
    separate = register_at-Separate email s h same.separate;
    inv = register-Inv email s g same.inv below;
    issued = ground (arith, next_id-register_at email s h, same.issued);
    rows = λ e. ground (
      arith,
      row_at-register_at email e s h same.separate,
      row-put email e ((g.next_id + 1) % int64_mod) s g.streams,
      same.rows email,
      same.rows e,
      same.issued,
    );
  }

  pub unregister-Same :
      (email : Text) (id : ℕ) (h : Shared S) (g : ConnectionHub S)
      → Same h g
      → Same (unregister_at email id h) (unregister email id g)
  unregister-Same email id h g same = record {
    separate = unregister_at-Separate email id h same.separate;
    inv = unregister-Inv email id g same.inv;
    issued =
        ground
          (arith, next_id-unregister_at email id h, next_id-unregister email id g, same.issued);
    rows = λ e. ground (
      arith,
      row_at-unregister_at email e id h same.separate,
      row-unregister email e id g,
      same.rows email,
      same.rows e,
    );
  }

  -- The `Unregister` calls at the end of `SendToUser`
  unfoldable pub unregister_all_at : Text → List ℕ → Shared S → Shared S
  unregister_all_at email [] h = h
  unregister_all_at email (id ∷ ids) h = unregister_all_at email ids (unregister_at email id h)

  pub unregister_all-Same :
      (email : Text) (ids : List ℕ) (h : Shared S) (g : ConnectionHub S)
      → Same h g
      → Same (unregister_all_at email ids h) (unregister_all email ids g)
  unfolding unregister_all unregister_all_at
  unregister_all-Same email [] h g same = same
  unregister_all-Same email (id ∷ ids) h g same =
      unregister_all-Same email ids (unregister_at email id h) (unregister email id g)
        (unregister-Same email id h g same)
