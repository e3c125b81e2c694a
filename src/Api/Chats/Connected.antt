-- ===== src/Api/Chats/Connected.antt =====
-- What a step does to the connections of the running handlers.
use rea_time_chat_g_rpc.Base.{
  ℕ, zero, suc, ◌+◌, ◌<◌, ◌≤◌, ◌≡◌, ◌≢◌, sym, subst, Bool, false, Option, some, List, [], ◌∷◌,
  arith, All, All-map, All-without, All-get, All-both, get_elem?, without,
}
use rea_time_chat_g_rpc.Auth.{Claims}
use rea_time_chat_g_rpc.Hub.{ConnectionHub, int64_mod, register, unregister, conn}
use rea_time_chat_g_rpc.Hub.Routing.{register-id, conn-register, conn-unregister}
use rea_time_chat_g_rpc.Hub.Invariant.{
  Inv, register-Inv, unregister-Inv, next_id-register, next_id-unregister,
}
use rea_time_chat_g_rpc.Api.Handlers.Chat.Healthy.{Later}
use rea_time_chat_g_rpc.Api.Chats.{Session}

module _ {S : Type 0} (broken : S → Bool) where
  -- The connection of a handler: its id has been issued, and names its stream unless that is broken.
  abbrev pub IsIn : ConnectionHub S → Session S → Type 0
  IsIn h x =
      (x.conn_id ≤ h.next_id)
      × (broken x.stream ≡ false → conn x.claims.email x.conn_id h ≡ some x.stream)

  -- No two handlers have the same id.
  abbrev pub Apart : List (Session S) → Type 0
  Apart [] = Unit
  Apart (x ∷ xs) = All (λ y. y.conn_id ≢ x.conn_id) xs × Apart xs

  pub record IsConnected (h : ConnectionHub S) (xs : List (Session S)) : Type 0 where
    pub kept : Inv h
    pub apart : Apart xs
    pub connected : All (IsIn h) xs

  pub opened-IsConnected :
      (claims : Claims) (stream : S) (h : ConnectionHub S) (xs : List (Session S))
      → h.next_id + 1 < int64_mod
      → IsConnected h xs
      → let (h', id) = register claims.email stream h in
        IsConnected h' (record { claims = claims; stream = stream; conn_id = id } ∷ xs)
  opened-IsConnected claims stream h xs room v =
      let (h', id) = register claims.email stream h in
      let next = next_id-register claims.email stream h v.kept room in
      let is_next : id ≡ h.next_id + 1 = omega (arith, register-id claims.email stream h, room) in
      record {
        kept = register-Inv claims.email stream h v.kept room;
        apart = (
          All-map (IsIn h) (λ y. y.conn_id ≢ id) xs (λ y i e. omega (arith, i.0, is_next, e))
              v.connected,
          v.apart,
        );
        connected = (
          (
            omega (arith, is_next, next),
            λ well. ground (
              arith,
              conn-register claims.email claims.email id stream h,
              register-id claims.email stream h,
            ),
          ),
          All-map (IsIn h) (IsIn h') xs
              (λ y i. (
                omega (arith, i.0, next),
                λ well. ground (
                  arith,
                  conn-register claims.email y.claims.email y.conn_id stream h,
                  register-id claims.email stream h,
                  is_next,
                  i.0,
                  i.1 well,
                ),
              ))
              v.connected,
        );
      }

  Apart-without : (n : ℕ) (xs : List (Session S)) → Apart xs → Apart (without n xs)
  Apart-without n [] o = tt
  Apart-without zero (x ∷ xs) o = o.1
  Apart-without (suc n) (x ∷ xs) o = (All-without _ n xs o.0, Apart-without n xs o.1)

  -- The other handlers have other ids.
  Apart-others :
      (n : ℕ) (x : Session S) (xs : List (Session S))
      → get_elem? xs n ≡ some x
      → Apart xs
      → All (λ y. y.conn_id ≢ x.conn_id) (without n xs)
  Apart-others n x [] found o = tt
  Apart-others zero x (y ∷ xs) found o =
      let same : y ≡ x = ground arith in subst (λ z. All (λ y. y.conn_id ≢ z.conn_id) xs) same o.0
  Apart-others (suc n) x (y ∷ xs) found o = (
    λ e. All-get (λ z. z.conn_id ≢ y.conn_id) n x xs found o.0 (sym e),
    Apart-others n x xs found o.1,
  )

  pub ended-IsConnected :
      (n : ℕ) (x : Session S) (h : ConnectionHub S) (xs : List (Session S))
      → get_elem? xs n ≡ some x
      → IsConnected h xs
      → IsConnected (unregister x.claims.email x.conn_id h) (without n xs)
  ended-IsConnected n x h xs found v =
      let email = x.claims.email in
      let same = next_id-unregister email x.conn_id h v.kept in
      record {
        kept = unregister-Inv email x.conn_id h v.kept;
        apart = Apart-without n xs v.apart;
        connected =
            All-both (λ y. y.conn_id ≢ x.conn_id) (IsIn h) (IsIn (unregister email x.conn_id h))
              (without n xs)
              (λ y other i. (
                omega (arith, i.0, same),
                λ well. ground (
                  arith,
                  conn-unregister email y.claims.email x.conn_id y.conn_id h,
                  other,
                  i.1 well,
                ),
              ))
              (Apart-others n x xs found v.apart) (All-without (IsIn h) n xs v.connected);
      }

  pub Later-IsConnected :
      (h : ConnectionHub S) (hub : Option (ConnectionHub S)) (xs : List (Session S))
      → (l : Later broken h hub) → IsConnected h xs
      → IsConnected (l.after) xs
  Later-IsConnected h hub xs l v = record {
    kept = l.kept;
    apart = v.apart;
    connected =
        All-map (IsIn h) (IsIn (l.after)) xs
          (λ x i. (
            omega (arith, i.0, l.issued),
            λ well. l.healthy x.claims.email x.conn_id x.stream well (i.1 well),
          ))
          v.connected;
  }
