-- ===== src/Normalize/Laws.antt =====
-- `normalize.Email` is idempotent, and forgets case and surrounding space, and only those.
use rea_time_chat_g_rpc.Base.{
  ℕ, ◌≡◌, refl, sym, ap, ◌∙◌, inl, inr, true, false, [], ◌∷◌, ◌++◌, arith, dec_lt, Text, All,
  Bool-cases, append-nil,
}
use rea_time_chat_g_rpc.Normalize.{
  CaseTable, IsCaseTable, is_space, trim_left, trim_right, cons_trimmed, trim_space, lower_rune,
  to_lower, email,
}

abbrev pub Spaces : Text → Type 0
Spaces = All (λ c. is_space c ≡ true)

trim_left-Spaces : (p s : Text) → Spaces p → trim_left (p ++ s) ≡ trim_left s
unfolding trim_left
trim_left-Spaces [] s h = refl
trim_left-Spaces (c ∷ p) s (e, h) = rw e (trim_left-Spaces p s h)

trim_right-Spaces : (q : Text) → Spaces q → trim_right q ≡ []
unfolding trim_right cons_trimmed
trim_right-Spaces [] h = refl
trim_right-Spaces (c ∷ q) (e, h) = rw (trim_right-Spaces q h, cons_trimmed, e)

trim_right-append : (s q : Text) → Spaces q → trim_right (s ++ q) ≡ trim_right s
unfolding trim_right
trim_right-append [] q h = trim_right-Spaces q h
trim_right-append (c ∷ s) q h = ap (cons_trimmed c) (trim_right-append s q h)

trim_left-append :
    (s q : Text) → Spaces q → trim_right (trim_left (s ++ q)) ≡ trim_right (trim_left s)
unfolding trim_left
trim_left-append [] q h =
    ap (λ r. trim_right (trim_left r)) (sym (append-nil q))
    ∙ ap trim_right (trim_left-Spaces q [] h)
trim_left-append (c ∷ s) q h = elim (Bool-cases (is_space c)) [
  | inl e ↦ rw e (trim_left-append s q h)
  | inr e ↦ rw e (trim_right-append (c ∷ s) q h)
]

pub trim_space-append :
    (p s q : Text) → Spaces p → Spaces q → trim_space (p ++ (s ++ q)) ≡ trim_space s
unfolding trim_space
trim_space-append p s q hp hq =
    ap trim_right (trim_left-Spaces p (s ++ q) hp) ∙ trim_left-append s q hq

pub trim_space-cons : (c : ℕ) (s : Text) → is_space c ≡ true → trim_space (c ∷ s) ≡ trim_space s
unfolding trim_space
trim_space-cons c s h = ap trim_right (trim_left-Spaces (c ∷ []) s (h, tt))

pub email-cons_space :
    (t : CaseTable) (c : ℕ) (e : Text) → is_space c ≡ true → email t (c ∷ e) ≡ email t e
unfolding email
email-cons_space t c e h = ap (to_lower t) (trim_space-cons c e h)

pub is_space-space : is_space 32 ≡ true
unfolding is_space
is_space-space = refl

-- Trimming twice is trimming once.
trim_left-head : (c : ℕ) (s : Text) → is_space c ≡ false → trim_left (c ∷ s) ≡ c ∷ s
unfolding trim_left
trim_left-head c s e = rw e

trim_left-cons_trimmed :
    (c : ℕ) (s : Text) → is_space c ≡ false → trim_left (cons_trimmed c s) ≡ cons_trimmed c s
unfolding trim_left cons_trimmed
trim_left-cons_trimmed c [] e = rw (e, e)
trim_left-cons_trimmed c (d ∷ s) e = rw e

trim_left-trim_space : (s : Text) → trim_left (trim_right (trim_left s)) ≡ trim_right (trim_left s)
unfolding trim_left trim_right
trim_left-trim_space [] = refl
trim_left-trim_space (c ∷ s) = elim (Bool-cases (is_space c)) [
  | inl e ↦ rw e (trim_left-trim_space s)
  | inr e ↦ rw e (trim_left-cons_trimmed c (trim_right s) e)
]

trim_right-cons_trimmed :
    (c : ℕ) (s : Text) → trim_right s ≡ s → trim_right (cons_trimmed c s) ≡ cons_trimmed c s
unfolding trim_right cons_trimmed
trim_right-cons_trimmed c [] e = ground arith
trim_right-cons_trimmed c (d ∷ s) e = rw e

trim_right_idem : (s : Text) → trim_right (trim_right s) ≡ trim_right s
unfolding trim_right
trim_right_idem [] = refl
trim_right_idem (c ∷ s) = trim_right-cons_trimmed c (trim_right s) (trim_right_idem s)

pub trim_space_idem : (s : Text) → trim_space (trim_space s) ≡ trim_space s
unfolding trim_space
trim_space_idem s = ap trim_right (trim_left-trim_space s) ∙ trim_right_idem (trim_left s)

module _ (t : CaseTable) (ok : IsCaseTable t) where
  lower_rune_idem : (c : ℕ) → lower_rune t (lower_rune t c) ≡ lower_rune t c
  unfolding lower_rune
  lower_rune_idem c = elim (dec_lt c 128) [
    | yes p ↦ ground arith
    | no p ↦ ground (arith, ok.lower_idem c (omega arith))
  ]

  is_space-lower_rune : (c : ℕ) → is_space (lower_rune t c) ≡ is_space c
  is_space-lower_rune c = elim (dec_lt c 128) [
    | yes p ↦ unfold lower_rune is_space in ground arith
    | no p ↦ unfold lower_rune in ground (arith, ok.lower_space c (omega arith))
  ]

  trim_left-to_lower : (s : Text) → trim_left (to_lower t s) ≡ to_lower t (trim_left s)
  unfolding trim_left to_lower
  trim_left-to_lower [] = refl
  trim_left-to_lower (c ∷ s) = ground (arith, is_space-lower_rune c, trim_left-to_lower s)

  cons_trimmed-to_lower :
      (c : ℕ) (s : Text)
      → cons_trimmed (lower_rune t c) (to_lower t s) ≡ to_lower t (cons_trimmed c s)
  unfolding cons_trimmed to_lower
  cons_trimmed-to_lower c [] = ground (arith, is_space-lower_rune c)
  cons_trimmed-to_lower c (d ∷ s) = refl

  trim_right-to_lower : (s : Text) → trim_right (to_lower t s) ≡ to_lower t (trim_right s)
  unfolding trim_right to_lower
  trim_right-to_lower [] = refl
  trim_right-to_lower (c ∷ s) =
      ap (cons_trimmed (lower_rune t c)) (trim_right-to_lower s)
      ∙ cons_trimmed-to_lower c (trim_right s)

  -- Trimming and lower-casing commute.
  pub trim_space-to_lower : (s : Text) → trim_space (to_lower t s) ≡ to_lower t (trim_space s)
  unfolding trim_space
  trim_space-to_lower s = ap trim_right (trim_left-to_lower s) ∙ trim_right-to_lower (trim_left s)

  to_lower_idem : (s : Text) → to_lower t (to_lower t s) ≡ to_lower t s
  unfolding to_lower
  to_lower_idem [] = refl
  to_lower_idem (c ∷ s) = cc (lower_rune_idem c, to_lower_idem s)

  -- Normalizing an address twice is normalizing it once.
  pub email_idem : (e : Text) → email t (email t e) ≡ email t e
  unfolding email
  email_idem e =
      ap (to_lower t) (trim_space-to_lower (trim_space e) ∙ ap (to_lower t) (trim_space_idem e))
      ∙ to_lower_idem (trim_space e)

  -- Two addresses that differ only in letter case and in the space around them have one normal
  -- form.
  pub email_respects :
      (p q s r : Text)
      → Spaces p
      → Spaces q
      → to_lower t s ≡ to_lower t r
      → email t (p ++ (s ++ q)) ≡ email t r
  unfolding email
  email_respects p q s r hp hq same =
      ap (to_lower t) (trim_space-append p s q hp hq)
      ∙ sym (trim_space-to_lower s)
      ∙ ap trim_space same
      ∙ trim_space-to_lower r
