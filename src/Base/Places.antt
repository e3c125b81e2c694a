-- ===== src/Base/Places.antt =====
-- Predicates on the entries of a list, by their places, and the write of a heap.
use Prim.Native.Nat.{ℕ, zero, suc}
use mathlib.Core.Path.{◌≡◌, refl, ap, subst}
use mathlib.Core.List.{List, [], ◌∷◌, ◌++◌, map}
use mathlib.Core.Option.{some}
use native.Mathlib.Omega.{arith}
use native.Mathlib.Decide.{ℕ_discrete}
use mathlib.Core.Logic.{ite, inl, inr}
use rea_time_chat_g_rpc.Base.Lists.{All, Has, get_elem?, without}

-- The write of an object of a heap.
abbrev pub update : {A : Type 0} → (ℕ → A) → ℕ → A → ℕ → A
update f a v b = ite (ℕ_discrete a b) v (f b)

module _ {A : Type 0} where
  pub All-map : (P Q : A → Type 0) (xs : List (A)) → ((x : A) → P x → Q x) → All P xs → All Q xs
  All-map P Q [] f o = tt
  All-map P Q (x ∷ xs) f o = (f x o.0, All-map P Q xs f o.1)

  pub All-without : (P : A → Type 0) (n : ℕ) (xs : List (A)) → All P xs → All P (without n xs)
  All-without P n [] o = tt
  All-without P zero (x ∷ xs) o = o.1
  All-without P (suc n) (x ∷ xs) o = (o.0, All-without P n xs o.1)

  pub All-get :
      (P : A → Type 0) (n : ℕ) (x : A) (xs : List (A)) → get_elem? xs n ≡ some x → All P xs → P x
  All-get P n x [] found o = absurd (ground arith)
  All-get P zero x (y ∷ xs) found o = let same : y ≡ x = ground arith in subst P same o.0
  All-get P (suc n) x (y ∷ xs) found o = All-get P n x xs found o.1

  pub All-both :
      (P Q R : A → Type 0) (xs : List (A))
      → ((x : A) → P x → Q x → R x)
      → All P xs
      → All Q xs
      → All R xs
  All-both P Q R [] f o q = tt
  All-both P Q R (x ∷ xs) f o q = (f x o.0 q.0, All-both P Q R xs f o.1 q.1)

  pub All-Has : (P : A → Type 0) (r : A) (rs : List (A)) → All P rs → Has r rs → P r
  All-Has P r [] o m = absurd m
  All-Has P r (x ∷ rs) o (inl e) = subst P e o.0
  All-Has P r (x ∷ rs) o (inr m) = All-Has P r rs o.1 m

  -- A statement on the entries, shown for each of them.
  pub All-of_Has : (P : A → Type 0) (xs : List A) → ((a : A) → Has a xs → P a) → All P xs
  All-of_Has P [] f = tt
  All-of_Has P (x ∷ xs) f = (f x (inl refl), All-of_Has P xs (λ a h. f a (inr h)))

  pub Has-right : (a : A) (xs ys : List A) → Has a ys → Has a (xs ++ ys)
  Has-right a [] ys h = h
  Has-right a (x ∷ xs) ys h = inr (Has-right a xs ys h)

pub Has-map : {A B : Type 0} (f : A → B) (a : A) (xs : List A) → Has a xs → Has (f a) (map f xs)
Has-map f a [] h = absurd h
Has-map f a (x ∷ xs) (inl e) = inl (ap f e)
Has-map f a (x ∷ xs) (inr h) = inr (Has-map f a xs h)
