-- ===== src/Data/Messages/Saved.antt =====
-- What is saved, and that a history misses nothing.
use mathlib.Core.List.{reverse-cons}
use rea_time_chat_g_rpc.Base.{
  ℕ, suc, ◌≤◌, ◌≡◌, refl, ap, sym, subst, ◌∙◌, ◌⊎◌, inl, inr, Bool, true, List, [], ◌∷◌, ◌++◌,
  reverse, arith, Text, text_discrete, ℕ_discrete, length, take, keep, count-keep, count-Has, ◌&&◌,
  SameEntries, Has, Has-of_count, take-all, length-count, is_yes, ok, Result-cases,
}
use rea_time_chat_g_rpc.Normalize.{CaseTable, email}
use rea_time_chat_g_rpc.Data.Models.{Message}
use rea_time_chat_g_rpc.Data.Messages.{MessagesColl, new_message, save_message}
use rea_time_chat_g_rpc.Data.Messages.History.{IsMessagesColl, IsHistory, exchanged, stored_as}

message_discrete : Discrete Message
message_discrete = hlevel (ℕ_discrete, text_discrete)

is_it : Message → Message → Bool
is_it m x = is_yes (message_discrete x m)

is_it_self : (m : Message) → is_it m m ≡ true
unfolding is_it
is_it_self m = elim (message_discrete m m) as (λ d. is_yes d ≡ true) [
  | yes e ↦ refl
  | no n ↦ absurd (n refl)
]

Has-snoc : (m x : Message) (ms : List Message) → (x ≡ m) ⊎ Has m ms → Has m (ms ++ x ∷ [])
Has-snoc m x [] (inl e) = inl e
Has-snoc m x [] (inr h) = absurd h
Has-snoc m x (y ∷ ms) (inl e) = inr (Has-snoc m x ms (inl e))
Has-snoc m x (y ∷ ms) (inr (inl e)) = inl e
Has-snoc m x (y ∷ ms) (inr (inr h)) = inr (Has-snoc m x ms (inr h))

Has-reverse : (m : Message) (ms : List Message) → Has m ms → Has m (reverse ms)
Has-reverse m [] h = absurd h
Has-reverse m (x ∷ ms) (inl e) = rw (reverse-cons x ms) (Has-snoc m x (reverse ms) (inl e))
Has-reverse m (x ∷ ms) (inr h) =
    rw (reverse-cons x ms) (Has-snoc m x (reverse ms) (inr (Has-reverse m ms h)))

-- What a test selects holds every entry that passes it, in whatever order it is read.
Has-of_kept :
    (p : Message → Bool) (m : Message) (ms full : List Message)
    → p m ≡ true
    → Has m ms
    → SameEntries full (keep p ms)
    → Has m full
unfolding is_it
Has-of_kept p m ms full passes has same =
    let both : (p m && is_it m m) ≡ true = ground (arith, is_it_self m) in
    Has-of_count message_discrete m full (
      omega (
        arith,
        same (is_it m),
        count-keep p (is_it m) ms,
        count-Has (λ a. p a && is_it m a) m ms has both,
      ))

Has-uncut :
    (m : Message) (n : ℕ) (full sel ms : List Message)
    → SameEntries full sel
    → length sel ≤ suc n
    → ms ≡ reverse (take (suc n) full)
    → Has m full
    → Has m ms
Has-uncut m n full sel ms same room cut has =
    subst (Has m)
      (sym (
        cut
        ∙ ap reverse (
            take-all (suc n) full
              (omega (arith, same (λ _. true), length-count full, length-count sel)))))
      (Has-reverse m full has)

module _ (t : CaseTable) {W C : Type 0} (coll : MessagesColl W C) (docs : W → List Message)
    (laws : IsMessagesColl coll docs) where
  pub save_message_ok :
      (from to text : Text) (at now : ℕ) (w : W) (m : Message)
      → (save_message t coll from to text at now w).0 ≡ ok m
      → (id : ℕ) × (m ≡ record (new_message t from to text at now) { id = id })
        × (docs (save_message t coll from to text at now w).1 ≡ docs w ++ stored_as id m ∷ [])
  unfolding save_message
  save_message_ok from to text at now w m e =
      let msg = new_message t from to text at now in
      elim (Result-cases (coll.insert_one msg w).0) [
        | inl (id, f) ↦ let added = laws.insert_ok msg w id f in (id, ground arith, ground arith)
        | inr (_, f) ↦ absurd (ground arith)
      ]

  -- A history misses no message between the two users if the limit is not below their number.
  pub IsHistory-complete :
      (user1 user2 : Text) (n : ℕ) (w : W) (ms : List Message) (m : Message)
      → IsHistory t coll docs laws user1 user2 n w ms
      → length (keep (exchanged t user1 user2) (docs w)) ≤ suc n
      → Has m (docs w)
      → (m.from_email ≡ email t user2) × (m.to_email ≡ email t user1)
      → Has m ms
  IsHistory-complete user1 user2 n w ms m (_, _, (full, _, same, cut)) room has between =
      Has-uncut m n full (keep (exchanged t user1 user2) (docs w)) ms same room cut
        (Has-of_kept (exchanged t user1 user2) m (docs w) full (ground (arith, between)) has same)
