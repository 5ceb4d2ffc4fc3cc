-- ===== src/Pool/Ordering.antt =====
-- Sorting gives an ordered list of the same elements, and both orders of backends are orders.
use s3mer.Base.Int.{ℤ, pos, negsuc}
use mathlib.Core.List.{Perm}
use mathlib.Core.List.Perm
use s3mer.Base.{◌≡◌, refl, Bool, true, false, List, [], ◌∷◌, All, arith, if◌then◌else◌}
use s3mer.Pool.{int_leb, sorted, insert, by_priority, by_latency, int_leb, ℤ}

module _ {A : Type 0} (le : A → A → Bool) where
  -- Each element comes before those that follow it.
  abbrev pub IsSorted : List A → Type 0
  IsSorted [] = Unit
  IsSorted (x ∷ xs) = All (λ y. le x y ≡ true) xs × IsSorted xs

  abbrev pub IsTotal : Type 0
  IsTotal = (x y : A) → le x y ≡ false → le y x ≡ true

  abbrev pub IsTransitive : Type 0
  IsTransitive = (x y z : A) → le x y ≡ true → le y z ≡ true → le x z ≡ true

module _ {A : Type 0} where
  All-if :
      (P : A → Type 0) (t : Bool) (xs ys : List A)
      → All P xs
      → All P ys
      → All P (if t then xs else ys)
  All-if P true xs ys h k = h
  All-if P false xs ys h k = k

  insert-All :
      (le : A → A → Bool) (P : A → Type 0) (x : A) (ys : List A)
      → P x
      → All P ys
      → All P (insert le x ys)
  unfolding insert
  insert-All le P x [] p h = (p, tt)
  insert-All le P x (y ∷ ys) p h =
      All-if P (le x y) (x ∷ y ∷ ys) (y ∷ insert le x ys) (p, h) (h.0, insert-All le P x ys p h.1)

  All-map : (P Q : A → Type 0) (xs : List A) → ((x : A) → P x → Q x) → All P xs → All Q xs
  All-map P Q [] f h = tt
  All-map P Q (x ∷ xs) f h = (f x h.0, All-map P Q xs f h.1)

  insert_if :
      (le : A → A → Bool) (x y : A) (ys : List A) (t : Bool)
      → le x y ≡ t
      → IsTotal le
      → IsTransitive le
      → IsSorted le (y ∷ ys)
      → IsSorted le (insert le x ys)
      → IsSorted le (if t then x ∷ y ∷ ys else y ∷ insert le x ys)
  insert_if le x y ys true e total trans h k =
      ((e, All-map (λ z. le y z ≡ true) (λ z. le x z ≡ true) ys (λ z p. trans x y z e p) h.0), h)
  insert_if le x y ys false e total trans h k =
      (insert-All le (λ z. le y z ≡ true) x ys (total x y e) h.0, k)

  insert-IsSorted :
      (le : A → A → Bool) (x : A) (ys : List A)
      → IsTotal le
      → IsTransitive le
      → IsSorted le ys
      → IsSorted le (insert le x ys)
  unfolding insert
  insert-IsSorted le x [] total trans h = (tt, tt)
  insert-IsSorted le x (y ∷ ys) total trans h =
      insert_if le x y ys (le x y) refl total trans h (insert-IsSorted le x ys total trans h.1)

  pub sorted-IsSorted :
      (le : A → A → Bool) (xs : List A) → IsTotal le → IsTransitive le → IsSorted le (sorted le xs)
  unfolding sorted
  sorted-IsSorted le [] total trans = tt
  sorted-IsSorted le (x ∷ xs) total trans =
      insert-IsSorted le x (sorted le xs) total trans (sorted-IsSorted le xs total trans)

  Perm-if :
      (t : Bool) (xs ys zs : List A) → Perm xs ys → Perm xs zs → Perm xs (if t then ys else zs)
  Perm-if true xs ys zs h k = h
  Perm-if false xs ys zs h k = k

  insert-Perm : (le : A → A → Bool) (x : A) (ys : List A) → Perm (x ∷ ys) (insert le x ys)
  unfolding insert
  insert-Perm le x [] = Perm.refl _
  insert-Perm le x (y ∷ ys) =
      Perm-if (le x y) _ _ _ (Perm.refl _)
        (Perm.trans (Perm.swap y x ys) (Perm.cons y (insert-Perm le x ys)))

  pub sorted-Perm : (le : A → A → Bool) (xs : List A) → Perm xs (sorted le xs)
  unfolding sorted
  sorted-Perm le [] = Perm.refl _
  sorted-Perm le (x ∷ xs) =
      Perm.trans (Perm.cons x (sorted-Perm le xs)) (insert-Perm le x (sorted le xs))

int_leb_total : (a b : ℤ) → int_leb a b ≡ false → int_leb b a ≡ true
unfolding int_leb
int_leb_total (pos a) (pos b) h = ground arith
int_leb_total (pos a) (negsuc b) h = refl
int_leb_total (negsuc a) (pos b) h = cc
int_leb_total (negsuc a) (negsuc b) h = ground arith

int_leb_trans : (a b c : ℤ) → int_leb a b ≡ true → int_leb b c ≡ true → int_leb a c ≡ true
unfolding int_leb
int_leb_trans (pos a) (pos b) (pos c) h k = ground arith
int_leb_trans (pos a) (pos b) (negsuc c) h k = cc
int_leb_trans (pos a) (negsuc b) c h k = cc
int_leb_trans (negsuc a) b (pos c) h k = refl
int_leb_trans (negsuc a) (pos b) (negsuc c) h k = cc
int_leb_trans (negsuc a) (negsuc b) (negsuc c) h k = ground arith

pub by_priority-IsTotal : IsTotal by_priority
by_priority-IsTotal c d h = int_leb_total c.priority d.priority h

pub by_priority-IsTransitive : IsTransitive by_priority
by_priority-IsTransitive c d e h k = int_leb_trans c.priority d.priority e.priority h k

pub by_latency-IsTotal : IsTotal by_latency
by_latency-IsTotal c d h = ground (arith, int_leb_total c.priority d.priority)

pub by_latency-IsTransitive : IsTransitive by_latency
by_latency-IsTransitive c d e h k = ground (arith, int_leb_trans c.priority d.priority e.priority)
