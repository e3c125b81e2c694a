-- ===== src/Data/Messages/Order.antt =====
-- Messages by time, and what reversing and cutting keep of a list.
use mathlib.Core.List.{reverse-cons}
use rea_time_chat_g_rpc.Base.{
  ℕ, suc, zero, ◌≤◌, ◌≡◌, refl, ap, ◌∙◌, Bool, false, not, ◌&&◌, List, [], ◌∷◌, ◌++◌, reverse,
  arith, length, take, keep, count, count-keep, SameEntries, All, All-append, All-of_count,
  All-take, length-append,
}
use rea_time_chat_g_rpc.Data.Models.{Message}

-- Newest first, and oldest first.
abbrev pub Falling : List Message → Type 0
Falling [] = Unit
Falling (x ∷ ms) = All (λ m. m.sent_at ≤ x.sent_at) ms × Falling ms

abbrev pub Rising : List Message → Type 0
Rising [] = Unit
Rising (x ∷ ms) = All (λ m. x.sent_at ≤ m.sent_at) ms × Rising ms

pub Falling-take : (n : ℕ) (ms : List Message) → Falling ms → Falling (take n ms)
Falling-take zero ms h = tt
Falling-take (suc n) [] h = tt
Falling-take (suc n) (x ∷ ms) h = (All-take _ n ms h.0, Falling-take n ms h.1)

Rising-snoc :
    (ms : List Message) (x : Message)
    → Rising ms
    → All (λ m. m.sent_at ≤ x.sent_at) ms
    → Rising (ms ++ x ∷ [])
Rising-snoc [] x h k = (tt, tt)
Rising-snoc (m ∷ ms) x h k = (All-append _ ms (x ∷ []) h.0 (k.0, tt), Rising-snoc ms x h.1 k.1)

pub All-reverse {κ} : (P : Message → Type κ) (ms : List Message) → All P ms → All P (reverse ms)
All-reverse P [] h = tt
All-reverse P (m ∷ ms) h =
    rw (reverse-cons m ms) (All-append P (reverse ms) (m ∷ []) (All-reverse P ms h.1) (h.0, tt))

pub Rising-reverse : (ms : List Message) → Falling ms → Rising (reverse ms)
Rising-reverse [] h = tt
Rising-reverse (m ∷ ms) h =
    rw (reverse-cons m ms)
      (Rising-snoc (reverse ms) m (Rising-reverse ms h.1) (All-reverse _ ms h.0))

pub length-reverse : (ms : List Message) → length (reverse ms) ≡ length ms
length-reverse [] = refl
length-reverse (m ∷ ms) =
    omega
      (arith, ap length (reverse-cons m ms), length-append (reverse ms) (m ∷ []), length-reverse ms)

none_both : (p : Message → Bool) (xs : List Message) → count (λ m. p m && not (p m)) xs ≡ 0
none_both p [] = refl
none_both p (x ∷ xs) = ground (arith, none_both p xs)

-- Every entry of a list with the same entries as a selection passes the test of the selection.
pub All-keep :
    (p : Message → Bool) (full ms : List Message)
    → SameEntries full (keep p ms)
    → All (λ m. not (p m) ≡ false) full
All-keep p full ms same =
    All-of_count (λ m. not (p m)) full
      (same (λ m. not (p m)) ∙ count-keep p (λ m. not (p m)) ms ∙ none_both p ms)
