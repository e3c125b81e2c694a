-- ===== src/Data/Messages/Reversal.antt =====
-- The two-pointer loop of `GetMessageHistory` reverses the list.
use mathlib.Core.List.{reverse-cons, reverse-append}
use rea_time_chat_g_rpc.Base.{
  ℕ, zero, suc, ◌+◌, ◌-◌, ◌≤◌, ◌≡◌, refl, sym, ap, ◌∙◌, ◌⊎◌, inl, inr, some, List, [], ◌∷◌, ◌++◌,
  reverse, append_assoc, append-nil, arith, length, length-append, get_elem?, set,
}
use rea_time_chat_g_rpc.Data.Models.{Message}
use rea_time_chat_g_rpc.Data.Messages.{swap, swap_loop, reverse_messages}

get_elem?-middle :
    (p r : List Message) (x : Message) (i : ℕ) → i ≡ length p → get_elem? (p ++ x ∷ r) i ≡ some x
get_elem?-middle [] r x i e = rw e
get_elem?-middle (y ∷ p) r x i e = rw e (get_elem?-middle p r x (length p) refl)

set-middle :
    (p r : List Message) (x v : Message) (i : ℕ) → i ≡ length p → set (p ++ x ∷ r) i v ≡ p ++ v ∷ r
set-middle [] r x v i e = rw e
set-middle (y ∷ p) r x v i e = rw e (ap (◌∷◌ y) (set-middle p r x v (length p) refl))

-- The exchange of the ends of a stretch.
swap-ends :
    (p m s : List Message) (x y : Message) (i j : ℕ)
    → i ≡ length p
    → j ≡ length p + suc (length m)
    → swap i j (p ++ x ∷ (m ++ y ∷ s)) ≡ p ++ y ∷ (m ++ x ∷ s)
unfolding swap
swap-ends p m s x y i j hi hj =
    let far : j ≡ length (p ++ x ∷ m) = omega (arith, length-append p (x ∷ m)) in
    let far' : j ≡ length (p ++ y ∷ m) = omega (arith, length-append p (y ∷ m)) in
    ground (
      arith,
      get_elem?-middle p (m ++ y ∷ s) x i hi,
      get_elem?-middle (p ++ x ∷ m) s y j far,
      append_assoc p (x ∷ m) (y ∷ s),
      set-middle p (m ++ y ∷ s) x y i hi,
      set-middle (p ++ y ∷ m) s y x j far',
      append_assoc p (y ∷ m) (y ∷ s),
      append_assoc p (y ∷ m) (x ∷ s),
    )

snoc_view :
    (m : List Message) → (m ≡ []) ⊎ ((ys : List Message) × (y : Message) × (m ≡ ys ++ y ∷ []))
snoc_view [] = inl refl
snoc_view (x ∷ m) = elim (snoc_view m) [
  | inl e ↦ inr ([], x, ap (◌∷◌ x) e)
  | inr (ys, y, e) ↦ inr (x ∷ ys, y, ap (◌∷◌ x) e)
]

reverse-ends :
    (x y : Message) (ys s : List Message)
    → reverse (x ∷ (ys ++ y ∷ [])) ++ s ≡ y ∷ (reverse ys ++ x ∷ s)
reverse-ends x y ys s =
    ap (λ r. r ++ s)
      (reverse-cons x (ys ++ y ∷ []) ∙ ap (λ r. r ++ x ∷ []) (reverse-append ys (y ∷ [])))
    ∙ ap (◌∷◌ y) (append_assoc (reverse ys) (x ∷ []) s)

-- The loop reverses the stretch between its pointers and leaves the rest alone.
swap_loop-reverse :
    (fuel : ℕ) (m p s : List Message) (i j : ℕ)
    → length m ≤ fuel
    → i ≡ length p
    → j ≡ length p + length m - 1
    → swap_loop fuel i j (p ++ (m ++ s)) ≡ p ++ (reverse m ++ s)
unfolding swap_loop
swap_loop-reverse zero [] p s i j h hi hj = refl
swap_loop-reverse zero (x ∷ m) p s i j h hi hj = absurd (omega arith)
swap_loop-reverse (suc fuel) [] p s i j h hi hj = ground arith
swap_loop-reverse (suc fuel) (x ∷ m) p s i j h hi hj = elim (snoc_view m) [
  | inl e ↦ ground (arith, e)
  | inr (ys, y, e) ↦
      let size : length m ≡ length ys + 1 = ap length e ∙ length-append ys (y ∷ []) in
      let inner = length-append p (y ∷ []) in
      let rest = swap_loop-reverse fuel ys (p ++ y ∷ []) (x ∷ s) (i + 1) (j - 1) in
      ground (
        arith,
        swap-ends p ys s x y i j hi (omega arith),
        ap (λ r. r ++ s) e,
        append_assoc ys (y ∷ []) s,
        append_assoc p (y ∷ []) (ys ++ x ∷ s),
        append_assoc p (y ∷ []) (reverse ys ++ x ∷ s),
        rest (omega arith) (omega arith) (omega arith),
        reverse-ends x y ys s,
        ap (λ r. reverse (x ∷ r)) e,
      )
]

-- The loop on two pointers that ends `GetMessageHistory` reverses the messages, however many there are.
pub reverse_messages-reverse : (ms : List Message) → reverse_messages ms ≡ reverse ms
unfolding reverse_messages
reverse_messages-reverse ms =
    ap (swap_loop (length ms) 0 (length ms - 1)) (sym (append-nil ms))
    ∙ swap_loop-reverse (length ms) ms [] [] 0 (length ms - 1) (omega arith) refl (omega arith)
    ∙ append-nil (reverse ms)
