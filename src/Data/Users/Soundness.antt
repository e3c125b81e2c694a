-- ===== src/Data/Users/Soundness.antt =====
-- The invariant of the accounts, which every registration keeps.
use rea_time_chat_g_rpc.Base.{
  ℕ, ◌≤◌, ◌≡◌, inl, inr, List, [], ◌∷◌, ◌++◌, arith, Text, count, count-append, All, All-append,
  Result-cases,
}
use rea_time_chat_g_rpc.Normalize.{CaseTable, IsCaseTable, email}
use rea_time_chat_g_rpc.Normalize.Laws.{email_idem}
use rea_time_chat_g_rpc.Data.Models.{User}
use rea_time_chat_g_rpc.Data.Users.{by_email, UsersColl, new_user, create_user, meets}
use rea_time_chat_g_rpc.Data.Users.Accounts.{IsUsersColl, document, create_user-world}

-- Every address is stored in its normal form, and no two accounts share one.
pub record IsSound (t : CaseTable) (us : List User) : Type 0 where
  pub normal : All (λ u. email t u.email ≡ u.email) us
  pub unique : (e : Text) → count (meets (by_email e)) us ≤ 1

module _ (t : CaseTable) (cases : IsCaseTable t) {W : Type 0} (coll : UsersColl W)
    (docs : W → List User) (laws : IsUsersColl coll docs) where
  IsSound-append :
      (us : List User) (u : User)
      → IsSound t us
      → email t u.email ≡ u.email
      → count (meets (by_email u.email)) us ≡ 0
      → IsSound t (us ++ u ∷ [])
  IsSound-append us u s n z = record {
    normal = All-append _ us (u ∷ []) s.normal (n, tt);
    unique = λ e. ground (arith, count-append (meets (by_email e)) us (u ∷ []), s.unique e);
  }

  -- With the documented behaviour of the database: if every stored address is in its normal form
  -- and no two accounts share one, this still holds after `CreateUser`, whether it succeeds or
  -- fails.
  pub create_user-IsSound :
      (mail hashed : Text) (now later : ℕ) (w : W)
      → IsSound t (docs w)
      → IsSound t (docs (create_user t coll mail hashed now later w).1)
  unfolding new_user
  create_user-IsSound mail hashed now later w s =
      let user = new_user t mail hashed now later in
      let normal = email_idem t cases mail in
      rw (create_user-world t coll docs laws mail hashed now later w)
        (elim (Result-cases (coll.insert_one user w).0) [
          | inl (id, e) ↦
              let (added, free) = laws.insert_ok user w id e in
              rw added (IsSound-append (docs w) (document (record user { id = id })) s normal free)
          | inr (_, e) ↦ elim (laws.insert_err user w _ e) [
            | inl same ↦ rw same s
            | inr (_, free, (id, added)) ↦
                rw added
                  (IsSound-append (docs w) (document (record user { id = id })) s normal free)
          ]
        ])
