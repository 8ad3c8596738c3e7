-- ===== src/Shared/Rows.antt =====
-- A database table as the list of its rows, in storage order.
use mathlib.Core.Path.{◌≡◌, refl, sym, ap, subst, ◌∙◌}
use mathlib.Core.Logic.{◌⊎◌, inl, inr}
use mathlib.Core.Bool.{Bool, true, false}
use mathlib.Core.List.{map, List, [], ◌∷◌, ◌++◌}
use admirald.Shared.Tests.{if◌then◌else◌, Bool-cases}
use admirald.Shared.Lists.{All, In, keep, any}

module _ {ℓ} {A : Type ℓ} where
  -- `UPDATE t SET f WHERE p`
  unfoldable pub update_where : (A → Bool) → (A → A) → List A → List A
  update_where p f [] = []
  update_where p f (x ∷ xs) = (if p x then f x else x) ∷ update_where p f xs

  -- `RowsAffected` of such an update is not 0.
  abbrev pub affected : (A → Bool) → List A → Bool
  affected p xs = any p xs

  -- An update whose condition fails on every row of a view does not change the view.
  pub keep-update_where :
      (v p : A → Bool) (f : A → A)
      → ((x : A) → p x ≡ true → v x ≡ false)
      → ((x : A) → p x ≡ true → v (f x) ≡ false)
      → (xs : List A) → keep v (update_where p f xs) ≡ keep v xs
  unfolding update_where
  keep-update_where v p f out kept [] = refl
  keep-update_where v p f out kept (x ∷ xs) = elim (Bool-cases (p x)) [
    | inl hit ↦ rw (hit, out x hit, kept x hit) (keep-update_where v p f out kept xs)
    | inr miss ↦ rw (miss, keep-update_where v p f out kept xs)
  ]

module _ {κ} {A : Type 0} (P : A → Type κ) where
  -- A predicate that the update keeps on the rows it changes holds of every row afterwards.
  pub All-update_where :
      (p : A → Bool) (f : A → A) (xs : List A)
      → ((x : A) → In x xs → p x ≡ true → P x → P (f x))
      → All P xs
      → All P (update_where p f xs)
  unfolding update_where
  All-update_where p f [] step h = tt
  All-update_where p f (x ∷ xs) step h =
      let rest = All-update_where p f xs (λ y m. step y (inr m)) h.1 in
      elim (Bool-cases (p x)) [
        | inl hit ↦ rw hit (step x (inl refl) hit h.0, rest)
        | inr miss ↦ rw miss (h.0, rest)
      ]

  -- The same where nothing is known of the rows beforehand.
  pub All-update_where_each :
      (p : A → Bool) (f : A → A) (xs : List A)
      → ((x : A) → In x xs → P (if p x then f x else x))
      → All P (update_where p f xs)
  unfolding update_where
  All-update_where_each p f [] each = tt
  All-update_where_each p f (x ∷ xs) each =
      (each x (inl refl), All-update_where_each p f xs (λ y m. each y (inr m)))

  pub All-append : (xs ys : List A) → All P xs → All P ys → All P (xs ++ ys)
  All-append [] ys hx hy = hy
  All-append (x ∷ xs) ys hx hy = (hx.0, All-append xs ys hx.1 hy)

-- A key that the update leaves alone has the same values afterwards.
pub map-update_where :
    {A B : Type 0} (key : A → B) (p : A → Bool) (f : A → A)
    → ((x : A) → key (f x) ≡ key x)
    → (xs : List A) → map key (update_where p f xs) ≡ map key xs
unfolding update_where
map-update_where key p f same [] = refl
map-update_where key p f same (x ∷ xs) = elim (Bool-cases (p x)) [
  | inl hit ↦ rw (hit, same x, map-update_where key p f same xs)
  | inr miss ↦ rw (miss, map-update_where key p f same xs)
]

pub In-append_one : {A : Type 0} (x y : A) (xs : List A) → In x (xs ++ y ∷ []) → In x xs ⊎ (x ≡ y)
In-append_one x y [] (inl e) = inr e
In-append_one x y [] (inr m) = absurd m
In-append_one x y (z ∷ zs) (inl e) = inl (inl e)
In-append_one x y (z ∷ zs) (inr m) = elim (In-append_one x y zs m) [
  | inl old ↦ inl (inr old)
  | inr e ↦ inr e
]

pub In-append_old : {A : Type 0} (x : A) (xs ys : List A) → In x xs → In x (xs ++ ys)
In-append_old x [] ys m = absurd m
In-append_old x (z ∷ zs) ys (inl e) = inl e
In-append_old x (z ∷ zs) ys (inr m) = inr (In-append_old x zs ys m)

pub In-append_new : {A : Type 0} (x : A) (xs : List A) → In x (xs ++ x ∷ [])
In-append_new x [] = inl refl
In-append_new x (z ∷ zs) = inr (In-append_new x zs)

pub In-middle : {A : Type 0} (x : A) (xs ys : List A) → In x (xs ++ x ∷ ys)
In-middle x [] ys = inl refl
In-middle x (z ∷ zs) ys = inr (In-middle x zs ys)

-- No two entries are equal: the values of a UNIQUE column.
abbrev pub Distinct : {A : Type 0} → List A → Type 0
Distinct [] = Unit
Distinct (x ∷ xs) = (In x xs → ⊥) × Distinct xs

pub In-map : {A B : Type 0} (f : A → B) (x : A) (xs : List A) → In x xs → In (f x) (map f xs)
In-map f x [] m = absurd m
In-map f x (y ∷ ys) (inl e) = inl (ap f e)
In-map f x (y ∷ ys) (inr m) = inr (In-map f x ys m)

-- A unique key determines the row.
pub row_of_key :
    {A B : Type 0} (key : A → B) (x y : A) (xs : List A)
    → Distinct (map key xs)
    → In x xs
    → In y xs
    → key x ≡ key y
    → x ≡ y
row_of_key key x y [] d mx my e = absurd mx
row_of_key key x y (z ∷ zs) d (inl p) (inl q) e = p ∙ sym q
row_of_key key x y (z ∷ zs) d (inl p) (inr m) e =
    absurd (d.0 (subst (λ k. In k (map key zs)) (sym e ∙ ap key p) (In-map key y zs m)))
row_of_key key x y (z ∷ zs) d (inr m) (inl q) e =
    absurd (d.0 (subst (λ k. In k (map key zs)) (e ∙ ap key q) (In-map key x zs m)))
row_of_key key x y (z ∷ zs) d (inr mx) (inr my) e = row_of_key key x y zs d.1 mx my e

pub Distinct-append_one :
    {A : Type 0} (x : A) (xs : List A) → (In x xs → ⊥) → Distinct xs → Distinct (xs ++ x ∷ [])
Distinct-append_one x [] new d = ((λ m. m), tt)
Distinct-append_one x (y ∷ ys) new d = (
  λ m. elim (In-append_one y x ys m) [ inl old ↦ d.0 old | inr e ↦ new (inl (sym e)) ],
  Distinct-append_one x ys (λ m. new (inr m)) d.1,
)

-- An update whose condition fails on every row changes nothing, and a view of such rows is empty.
pub update_where-miss :
    {A : Type 0} (p : A → Bool) (f : A → A) (xs : List A)
    → All (λ x. p x ≡ false) xs
    → update_where p f xs ≡ xs
unfolding update_where
update_where-miss p f [] h = refl
update_where-miss p f (x ∷ xs) h = rw (h.0, update_where-miss p f xs h.1)

pub keep-append_one :
    {A : Type 0} (p : A → Bool) (xs : List A) (y : A)
    → All (λ x. p x ≡ false) xs
    → p y ≡ true
    → keep p (xs ++ y ∷ []) ≡ y ∷ []
keep-append_one p [] y h hit = rw hit
keep-append_one p (x ∷ xs) y h hit = rw (h.0, keep-append_one p xs y h.1 hit)

pub All-map :
    {A : Type 0} {P Q : A → Type 0} (f : (x : A) → P x → Q x) (xs : List A) → All P xs → All Q xs
All-map f [] h = tt
All-map f (x ∷ xs) h = (f x h.0, All-map f xs h.1)

pub any-miss :
    {A : Type 0} (p : A → Bool) (xs : List A) → All (λ x. p x ≡ false) xs → any p xs ≡ false
any-miss p [] h = refl
any-miss p (x ∷ xs) h = rw (h.0, any-miss p xs h.1)

pub any-hit :
    {A : Type 0} (p : A → Bool) (x : A) (xs : List A) → In x xs → p x ≡ true → any p xs ≡ true
any-hit p x [] m h = absurd m
any-hit p x (y ∷ ys) (inl e) h = rw (← e, h)
any-hit p x (y ∷ ys) (inr m) h = elim (Bool-cases (p y)) [
  | inl hit ↦ rw hit
  | inr miss ↦ rw miss (any-hit p x ys m h)
]
