-- ===== src/Data/Users/Accounts.antt =====
-- One account for each address, whatever its case and the space around it.
use rea_time_chat_g_rpc.Base.{
  ℕ, ◌≡◌, ◌≢◌, ap, sym, subst, ◌⊎◌, inl, inr, Bool, true, List, [], ◌∷◌, ◌++◌, arith, Text, count,
  count-append, Has, Has-append, count-Has, ok, err, Result-cases,
}
use rea_time_chat_g_rpc.Errors.{Error, duplicate_key, no_documents}
use rea_time_chat_g_rpc.Normalize.{CaseTable, email}
use rea_time_chat_g_rpc.Data.Models.{User}
use rea_time_chat_g_rpc.Data.Bson.{bson_date}
use rea_time_chat_g_rpc.Data.Users.{
  UserFilter, by_email, UsersColl, insert_error, new_user, create_user, get_user_by_email,
  user_exists, meets,
}

-- The document of an account; its times are BSON dates.
abbrev pub document : User → User
document u = record u { created_at = bson_date u.created_at; updated_at = bson_date u.updated_at }

-- What MongoDB documents of a collection with a unique index on "email"; `docs w` are its documents.
pub record IsUsersColl {W : Type 0} (coll : UsersColl W) (docs : W → List User) : Type 0 where
  -- An insertion adds the document under its new id, and is refused if the address is taken.
  pub insert_ok :
      (u : User) (w : W) (id : ℕ)
      → (coll.insert_one u w).0 ≡ ok id
      → (docs (coll.insert_one u w).1 ≡ docs w ++ document (record u { id = id }) ∷ [])
        × (count (meets (by_email u.email)) (docs w) ≡ 0)
  -- A duplicate key changes nothing. After another error the document may have been written.
  pub insert_err :
      (u : User) (w : W) (e : Error)
      → (coll.insert_one u w).0 ≡ err e
      → (docs (coll.insert_one u w).1 ≡ docs w)
        ⊎ ((e ≢ duplicate_key)
            × (count (meets (by_email u.email)) (docs w) ≡ 0)
            × ((id : ℕ) × (docs (coll.insert_one u w).1
                  ≡ docs w ++ document (record u { id = id }) ∷ [])))
  pub find_ok :
      (f : UserFilter) (w : W) (u : User)
      → coll.find_one f w ≡ ok u
      → (meets f u ≡ true) × Has u (docs w)
  pub find_none :
      (f : UserFilter) (w : W) → coll.find_one f w ≡ err no_documents → count (meets f) (docs w) ≡ 0
  pub count_ok :
      (f : UserFilter) (w : W) (n : ℕ)
      → coll.count_documents f w ≡ ok n
      → n ≡ count (meets f) (docs w)

module _ (t : CaseTable) {W : Type 0} (coll : UsersColl W) (docs : W → List User)
    (laws : IsUsersColl coll docs) where
  -- The world that `CreateUser` leaves is the one that the insertion leaves.
  pub create_user-world :
      (mail hashed : Text) (now later : ℕ) (w : W)
      → (create_user t coll mail hashed now later w).1
        ≡ (coll.insert_one (new_user t mail hashed now later) w).1
  unfolding create_user
  create_user-world mail hashed now later w = ground arith

  -- Once `u` is stored under an address that was free, every spelling of it is found to exist.
  user_exists_after :
      (mail other : Text) (w w' : W) (u : User) (b : Bool)
      → docs w' ≡ docs w ++ u ∷ []
      → u.email ≡ email t mail
      → email t other ≡ email t mail
      → user_exists t coll other w' ≡ ok b
      → b ≡ true
  unfolding user_exists
  user_exists_after mail other w w' u b added stored same e =
      elim (Result-cases (coll.count_documents (by_email (email t other)) w')) [
        | inl (n, counted) ↦ ground (
          arith,
          laws.count_ok (by_email (email t other)) w' n counted,
          count-append (meets (by_email (email t other))) (docs w) (u ∷ []),
          ap (count (meets (by_email (email t other)))) added,
        )
        | inr (_, failed) ↦ absurd (ground arith)
      ]

  only_account :
      (f : UserFilter) (w w' : W) (u v : User)
      → docs w' ≡ docs w ++ u ∷ []
      → count (meets f) (docs w) ≡ 0
      → Has v (docs w')
      → meets f v ≡ true
      → v ≡ u
  only_account f w w' u v added free has met =
      elim (Has-append v (docs w) (u ∷ []) (rw added at has)) [
        | inl old ↦ absurd (omega (arith, count-Has (meets f) v (docs w) old met))
        | inr (inl same) ↦ sym same
        | inr (inr nowhere) ↦ absurd nowhere
      ]

  -- It is the account that every spelling of the address finds.
  get_user_after :
      (mail other : Text) (w w' : W) (u v : User)
      → docs w' ≡ docs w ++ u ∷ []
      → count (meets (by_email (email t mail))) (docs w) ≡ 0
      → email t other ≡ email t mail
      → get_user_by_email t coll other w' ≡ ok v
      → v ≡ u
  unfolding get_user_by_email
  get_user_after mail other w w' u v added free same e =
      elim (Result-cases (coll.find_one (by_email (email t other)) w')) [
        | inl (x, found) ↦
            let (met, has) = laws.find_ok (by_email (email t other)) w' x found in
            let is_u =
              only_account (by_email (email t other)) w w' u x added (rw same free) has met in
            ground arith
        | inr (_, failed) ↦ absurd (ground arith)
      ]

  -- `GetUserByEmail` finds a stored account with the normal form of the address.
  pub get_user_by_email_ok :
      (mail : Text) (w : W) (u : User)
      → get_user_by_email t coll mail w ≡ ok u
      → Has u (docs w) × (u.email ≡ email t mail)
  unfolding get_user_by_email
  get_user_by_email_ok mail w u e =
      elim (Result-cases (coll.find_one (by_email (email t mail)) w)) [
        | inl (v, found) ↦
            let (met, has) = laws.find_ok (by_email (email t mail)) w v found in
            let is_u : v ≡ u = ground arith in (subst (λ x. Has x (docs w)) is_u has, ground arith)
        | inr (_, failed) ↦ absurd (ground arith)
      ]

  -- With the documented behaviour of the database: a created account has the given hash and is
  -- stored under the normal form of the address, which was free before, and nothing else changes.
  pub create_user_ok :
      (mail hashed : Text) (now later : ℕ) (w : W) (u : User)
      → (create_user t coll mail hashed now later w).0 ≡ ok u
      → (u.email ≡ email t mail)
        × (u.password ≡ hashed)
        × (docs (create_user t coll mail hashed now later w).1 ≡ docs w ++ document u ∷ [])
        × (count (meets (by_email (email t mail))) (docs w) ≡ 0)
  unfolding create_user new_user
  create_user_ok mail hashed now later w u e =
      let user = new_user t mail hashed now later in
      elim (Result-cases (coll.insert_one user w).0) [
        | inl (id, f) ↦
            let (added, free) = laws.insert_ok user w id f in
            (ground arith, ground arith, ground arith, free)
        | inr (_, f) ↦ absurd (ground arith)
      ]

  -- With the documented behaviour of the database: what `UserExists` answers right after an
  -- account is created, under any spelling of its address, is true.
  pub user_exists-create_user :
      (mail hashed other : Text) (now later : ℕ) (w : W) (u : User) (b : Bool)
      → (create_user t coll mail hashed now later w).0 ≡ ok u
      → email t other ≡ email t mail
      → user_exists t coll other (create_user t coll mail hashed now later w).1 ≡ ok b
      → b ≡ true
  user_exists-create_user mail hashed other now later w u b e same counted =
      let (stored, _, added, _) = create_user_ok mail hashed now later w u e in
      user_exists_after mail other w (create_user t coll mail hashed now later w).1 (document u) b
        added stored same counted

  -- With the documented behaviour of the database: what `GetUserByEmail` finds right after an
  -- account is created, under any spelling of its address, is this account, with its times
  -- in milliseconds.
  pub get_user_by_email-create_user :
      (mail hashed other : Text) (now later : ℕ) (w : W) (u v : User)
      → (create_user t coll mail hashed now later w).0 ≡ ok u
      → email t other ≡ email t mail
      → get_user_by_email t coll other (create_user t coll mail hashed now later w).1 ≡ ok v
      → v ≡ document u
  get_user_by_email-create_user mail hashed other now later w u v e same found =
      let (_, _, added, free) = create_user_ok mail hashed now later w u e in
      get_user_after mail other w (create_user t coll mail hashed now later w).1 (document u) v
        added free same found

  -- With the documented behaviour of the database: `CreateUser` with any spelling of a stored
  -- address fails and stores nothing.
  pub create_user_taken :
      (mail hashed : Text) (now later : ℕ) (w : W) (v : User)
      → Has v (docs w)
      → v.email ≡ email t mail
      → (e : Error) × ((create_user t coll mail hashed now later w).0 ≡ err e)
        × (docs (create_user t coll mail hashed now later w).1 ≡ docs w)
  unfolding create_user new_user
  create_user_taken mail hashed now later w v has same =
      let user = new_user t mail hashed now later in
      let taken = count-Has (meets (by_email (email t mail))) v (docs w) has (ground arith) in
      elim (Result-cases (coll.insert_one user w).0) [
        | inl (id, f) ↦ absurd (omega (arith, (laws.insert_ok user w id f).1))
        | inr (e, f) ↦ elim (laws.insert_err user w e f) [
          | inl kept ↦ (insert_error e, ground arith, ground arith)
          | inr (_, free, _) ↦ absurd (omega arith)
        ]
      ]
