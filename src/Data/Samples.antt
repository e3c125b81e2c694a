-- ===== src/Data/Samples.antt =====
-- The two collections in memory, for examples.
use rea_time_chat_g_rpc.Base.{
  ℕ, suc, ◌≤◌, ◌≡◌, refl, ap, sym, ◌∙◌, inl, inr, Bool, true, List, [], ◌∷◌, ◌++◌, arith, count,
  keep, take, length, leb, ltb, if◌then◌else◌, Has, All, ℤ, pos, negsuc, Result, ok, err,
  Bool-cases,
}
use rea_time_chat_g_rpc.Errors.{Error, eof, duplicate_key, no_documents}
use rea_time_chat_g_rpc.Data.Models.{User, Message}
use rea_time_chat_g_rpc.Data.Users.{UserFilter, by_email, by_id, UsersColl}
use rea_time_chat_g_rpc.Data.Users as Accounts
use rea_time_chat_g_rpc.Data.Users.Accounts.{IsUsersColl, document}
use rea_time_chat_g_rpc.Data.Messages.{MessagesColl}
use rea_time_chat_g_rpc.Data.Messages.Order.{Falling}
use rea_time_chat_g_rpc.Data.Messages.History.{meets, IsMessagesColl, stored_as}

abbrev find_in : UserFilter → List User → Result Error User
find_in f [] = err no_documents
find_in f (u ∷ us) = if Accounts.meets f u then ok u else find_in f us

abbrev insert_in : User → List User → Result Error ℕ × List User
insert_in u us =
    if ltb 0 (count (Accounts.meets (by_email u.email)) us)
    then (err duplicate_key, us)
    else (ok (length us), us ++ document (record u { id = length us }) ∷ [])

abbrev pub accounts : UsersColl (List User)
accounts = record {
  insert_one = insert_in;
  find_one = find_in;
  count_documents = λ f us. ok (count (Accounts.meets f) us);
}

find_in_ok :
    (f : UserFilter) (us : List User) (u : User)
    → find_in f us ≡ ok u
    → (Accounts.meets f u ≡ true) × Has u us
find_in_ok f [] u e = absurd (ground arith)
find_in_ok f (v ∷ us) u e = elim (Bool-cases (Accounts.meets f v)) [
  | inl m ↦ let same : v ≡ u = ground arith in (ap (Accounts.meets f) (sym same) ∙ m, inl same)
  | inr m ↦ let (met, has) = find_in_ok f us u (ground arith) in (met, inr has)
]

find_in_none :
    (f : UserFilter) (us : List User)
    → find_in f us ≡ err no_documents
    → count (Accounts.meets f) us ≡ 0
find_in_none f [] e = refl
find_in_none f (u ∷ us) e = ground (arith, find_in_none f us)

pub accounts-IsUsersColl : IsUsersColl accounts (λ us. us)
accounts-IsUsersColl = record {
  insert_ok = λ u w id e. (ground arith);
  insert_err = λ u w x e. inl (ground arith);
  find_ok = find_in_ok;
  find_none = find_in_none;
  count_ok = λ f w n e. ground arith;
}

-- Puts a message into a list that falls by time.
abbrev put_falling : Message → List Message → List Message
put_falling m [] = m ∷ []
put_falling m (x ∷ ms) = if leb x.sent_at m.sent_at then m ∷ x ∷ ms else x ∷ put_falling m ms

abbrev sort_falling : List Message → List Message
sort_falling [] = []
sort_falling (m ∷ ms) = put_falling m (sort_falling ms)

put_falling-count :
    (m : Message) (ms : List Message) (p : Message → Bool)
    → count p (put_falling m ms) ≡ count p (m ∷ ms)
put_falling-count m [] p = refl
put_falling-count m (x ∷ ms) p = ground (arith, put_falling-count m ms p)

sort_falling-count :
    (ms : List Message) (p : Message → Bool) → count p (sort_falling ms) ≡ count p ms
sort_falling-count [] p = refl
sort_falling-count (m ∷ ms) p =
    ground (arith, put_falling-count m (sort_falling ms) p, sort_falling-count ms p)

All-put_falling :
    (P : Message → Type 0) (m : Message) (ms : List Message)
    → P m
    → All P ms
    → All P (put_falling m ms)
All-put_falling P m [] h k = (h, tt)
All-put_falling P m (x ∷ ms) h k = elim (Bool-cases (leb x.sent_at m.sent_at)) [
  | inl e ↦ rw e (h, k)
  | inr e ↦ rw e (k.0, All-put_falling P m ms h k.1)
]

All-below :
    (a b : ℕ) (ms : List Message)
    → a ≤ b
    → All (λ m. m.sent_at ≤ a) ms
    → All (λ m. m.sent_at ≤ b) ms
All-below a b [] h k = tt
All-below a b (m ∷ ms) h k = (omega (arith, k.0), All-below a b ms h k.1)

put_falling-Falling : (m : Message) (ms : List Message) → Falling ms → Falling (put_falling m ms)
put_falling-Falling m [] f = (tt, tt)
put_falling-Falling m (x ∷ ms) f = elim (Bool-cases (leb x.sent_at m.sent_at)) [
  | inl e ↦
      let le : x.sent_at ≤ m.sent_at = ground arith in
      rw e ((le, All-below x.sent_at m.sent_at ms le f.0), f)
  | inr e ↦
      let le : m.sent_at ≤ x.sent_at = ground arith in
      rw e (All-put_falling _ m ms le f.0, put_falling-Falling m ms f.1)
]

sort_falling-Falling : (ms : List Message) → Falling (sort_falling ms)
sort_falling-Falling [] = tt
sort_falling-Falling (m ∷ ms) = put_falling-Falling m (sort_falling ms) (sort_falling-Falling ms)

abbrev take_limit : ℤ → List Message → List Message
take_limit (pos n) ms = take n ms
take_limit (negsuc n) ms = take (suc n) ms

abbrev pub mailbox : MessagesColl (List Message) (List Message)
mailbox = record {
  insert_one = λ m ms. (ok (length ms), ms ++ stored_as (length ms) m ∷ []);
  find = λ f o ms. ok (take_limit o.limit (sort_falling (keep (meets f) ms)));
  aggregate = λ p ms. err eof;
  all_messages = λ c ms. ok c;
  all_documents = λ c ms. err eof;
}

pub mailbox-IsMessagesColl : IsMessagesColl mailbox (λ ms. ms)
mailbox-IsMessagesColl = record {
  insert_ok = λ m w id e. ground arith;
  find_ok = λ f n w c ms e g.
      let full = sort_falling (keep (meets f) w) in
      (
        full,
        sort_falling-Falling (keep (meets f) w),
        sort_falling-count (keep (meets f) w),
        ground arith,
      );
}
