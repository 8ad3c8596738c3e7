-- ===== src/Shared/Updates.antt =====
-- Further lemmas on tables: keys, lookups, and updates of rows.
use native.Mathlib.Omega.{arith}
use mathlib.Core.Path.{◌≡◌, refl, sym, ap, subst, ◌∙◌}
use mathlib.Core.Logic.{◌⊎◌, inl, inr}
use mathlib.Core.Bool.{Bool, true}
use mathlib.Core.List.{map, List, [], ◌∷◌, ◌++◌}
use admirald.Shared.Tests.{some_injective, if◌then◌else◌, Bool-cases}
use admirald.Shared.Lists.{All, In, find}
use mathlib.Core.Option.{none, some}
use Prim.Native.String.{String}
use text.Mathlib.Text.{◌==◌}
use text.Mathlib.TextEquality.{eq_iff}
use admirald.Shared.Rows.{update_where, In-map, In-middle, Distinct, row_of_key}

pub append_nil : {A : Type 0} (xs : List A) → xs ++ [] ≡ xs
append_nil [] = refl
append_nil (x ∷ xs) = ap (λ ys. x ∷ ys) (append_nil xs)

pub append_one :
    {A : Type 0} (xs : List A) (x : A) (ys : List A) → (xs ++ x ∷ []) ++ ys ≡ xs ++ x ∷ ys
append_one [] x ys = refl
append_one (z ∷ zs) x ys = ap (λ ws. z ∷ ws) (append_one zs x ys)

pub All-append_left {κ} :
    {A : Type 0} (P : A → Type κ) (xs ys : List A) → All P (xs ++ ys) → All P xs
All-append_left P [] ys h = tt
All-append_left P (x ∷ xs) ys h = (h.0, All-append_left P xs ys h.1)

pub In-map_append :
    {A B : Type 0} (key : A → B) (k : B) (xs ys : List A)
    → In k (map key xs)
    → In k (map key (xs ++ ys))
In-map_append key k [] ys m = absurd m
In-map_append key k (x ∷ xs) ys (inl e) = inl e
In-map_append key k (x ∷ xs) ys (inr m) = inr (In-map_append key k xs ys m)

-- With distinct keys, no entry has the key of an earlier one.
pub Distinct-middle :
    {A B : Type 0} (key : A → B) (xs : List A) (x : A) (ys : List A)
    → Distinct (map key (xs ++ x ∷ ys))
    → In (key x) (map key xs)
    → ⊥
Distinct-middle key [] x ys d m = m
Distinct-middle key (z ∷ zs) x ys d (inl e) =
    d.0 (
      subst (λ k. In k (map key (zs ++ x ∷ ys))) e
        (In-map key x (zs ++ x ∷ ys) (In-middle x zs ys)))
Distinct-middle key (z ∷ zs) x ys d (inr m) = Distinct-middle key zs x ys d.1 m

pub update_where-same :
    {A : Type 0} (p q : A → Bool) (f : A → A) (xs : List A)
    → ((x : A) → In x xs → p x ≡ q x)
    → update_where p f xs ≡ update_where q f xs
unfolding update_where
update_where-same p q f [] h = refl
update_where-same p q f (x ∷ xs) h =
    rw (h x (inl refl), update_where-same p q f xs (λ y m. h y (inr m)))

-- Two updates of the same rows in a row are one.
pub update_where-update_where :
    {A : Type 0} (p : A → Bool) (f g : A → A) (xs : List A)
    → ((x : A) → p x ≡ true → p (f x) ≡ true)
    → update_where p g (update_where p f xs) ≡ update_where p (λ x. g (f x)) xs
unfolding update_where
update_where-update_where p f g [] h = refl
update_where-update_where p f g (x ∷ xs) h = elim (Bool-cases (p x)) [
  | inl hit ↦ rw (hit, h x hit, update_where-update_where p f g xs h)
  | inr miss ↦ rw (miss, miss, update_where-update_where p f g xs h)
]

-- An update that leaves each of its rows as it is.
pub update_where-idle :
    {A : Type 0} (p : A → Bool) (f : A → A) (xs : List A)
    → ((x : A) → In x xs → p x ≡ true → f x ≡ x)
    → update_where p f xs ≡ xs
unfolding update_where
update_where-idle p f [] h = refl
update_where-idle p f (x ∷ xs) h =
    let rest = update_where-idle p f xs (λ y m. h y (inr m)) in
    elim (Bool-cases (p x)) [
      | inl hit ↦ rw (hit, h x (inl refl) hit, rest)
      | inr miss ↦ rw (miss, rest)
    ]

pub update_where_agree :
    {A : Type 0} (p : A → Bool) (f g : A → A) (xs : List A)
    → ((x : A) → In x xs → p x ≡ true → f x ≡ g x)
    → update_where p f xs ≡ update_where p g xs
unfolding update_where
update_where_agree p f g [] h = refl
update_where_agree p f g (x ∷ xs) h =
    let rest = update_where_agree p f g xs (λ y m. h y (inr m)) in
    elim (Bool-cases (p x)) [
      | inl hit ↦ rw (hit, h x (inl refl) hit, rest)
      | inr miss ↦ rw (miss, rest)
    ]

-- The lookup of a listed row by its unique key.
pub find_by_key :
    {A : Type 0} (key : A → String) (x : A) (xs : List A)
    → Distinct (map key xs)
    → In x xs
    → find (λ y. key y == key x) xs ≡ some x
find_by_key key x [] d m = absurd m
find_by_key key x (y ∷ ys) d (inl e) = rw (← e, (eq_iff (key x) (key x)).1 refl) refl
find_by_key key x (y ∷ ys) d (inr m) = elim (Bool-cases (key y == key x)) [
  | inl hit ↦ absurd (
      d.0
        (subst (λ k. In k (map key ys)) (sym ((eq_iff (key y) (key x)).0 hit)) (In-map key x ys m)))
  | inr miss ↦ rw miss (find_by_key key x ys d.1 m)
]

-- With a unique key, an update of one row only needs to know that row.
pub update_where_one :
    {A : Type 0} (key : A → String) (f g : A → A) (x : A) (xs : List A)
    → Distinct (map key xs)
    → In x xs
    → f x ≡ g x
    → update_where (λ y. key y == key x) f xs ≡ update_where (λ y. key y == key x) g xs
update_where_one key f g x xs d m e =
    update_where_agree (λ y. key y == key x) f g xs
      (λ y my hit.
        let same = row_of_key key y x xs d my m ((eq_iff (key y) (key x)).0 hit) in
        subst (λ z. f z ≡ g z) (sym same) e)

pub In-update_where :
    {A : Type 0} (p : A → Bool) (f : A → A) (x : A) (xs : List A)
    → In x xs
    → p x ≡ true
    → In (f x) (update_where p f xs)
unfolding update_where
In-update_where p f x [] m hit = absurd m
In-update_where p f x (y ∷ ys) (inl e) hit = inl (rw (← e, hit) refl)
In-update_where p f x (y ∷ ys) (inr m) hit = inr (In-update_where p f x ys m hit)

-- A row of an updated table comes from a row of the table.
pub update_where_origin :
    {A : Type 0} (p : A → Bool) (f : A → A) (y : A) (xs : List A)
    → In y (update_where p f xs)
    → (x : A) × In x xs × ((y ≡ x) ⊎ ((p x ≡ true) × (y ≡ f x)))
unfolding update_where
update_where_origin p f y [] m = absurd m
update_where_origin {A} p f y (x ∷ xs) m =
    let later : In y (update_where p f xs)
        → (z : A) × In z (x ∷ xs) × ((y ≡ z) ⊎ ((p z ≡ true) × (y ≡ f z))) =
      λ n. let (z, mz, o) = update_where_origin p f y xs n in (z, inr mz, o) in
    let rows : Bool → List A = λ b. (if b then f x else x) ∷ update_where p f xs in
    elim (Bool-cases (p x)) [
      | inl hit ↦ elim (subst (λ b. In y (rows b)) hit m) [
        | inl e ↦ (x, inl refl, inr (hit, e))
        | inr n ↦ later n
      ]
      | inr miss ↦ elim (subst (λ b. In y (rows b)) miss m) [
        | inl e ↦ (x, inl refl, inl e)
        | inr n ↦ later n
      ]
    ]

-- Replacing the rows with a key by a row with that key keeps the keys.
pub map-update_where_one :
    {A : Type 0} (key : A → String) (x y : A) (xs : List A)
    → key y ≡ key x
    → map key (update_where (λ z. key z == key x) (λ _. y) xs) ≡ map key xs
unfolding update_where
map-update_where_one key x y [] e = refl
map-update_where_one key x y (z ∷ zs) e =
    let rest = map-update_where_one key x y zs e in
    elim (Bool-cases (key z == key x)) [
      | inl hit ↦ rw (hit, e, rest, (eq_iff (key z) (key x)).0 hit) refl
      | inr miss ↦ rw (miss, rest) refl
    ]

-- A lookup after an update that does not change whether a row is looked for.
pub find-update_where-some :
    {A : Type 0} (p q : A → Bool) (f : A → A) (xs : List A) (r : A)
    → ((x : A) → p (f x) ≡ p x)
    → find p xs ≡ some r
    → find p (update_where q f xs) ≡ some (if q r then f r else r)
unfolding update_where
find-update_where-some p q f [] r same h = cc
find-update_where-some p q f (x ∷ xs) r same h =
    let kept : p (if q x then f x else x) ≡ p x = elim (Bool-cases (q x)) [
      | inl change ↦ rw change (same x)
      | inr stay ↦ rw stay refl
    ] in
    let rest = find-update_where-some p q f xs r same in
    rw kept (elim (Bool-cases (p x)) [
      | inl hit ↦
          let e : x ≡ r = some_injective x r (sym (rw hit refl) ∙ h) in
          rw hit (ap (λ z. some (if q z then f z else z)) e)
      | inr miss ↦ rw miss (rest (sym (rw miss refl) ∙ h))
    ])

pub find-append_first :
    {A : Type 0} (p : A → Bool) (xs ys : List A) (a : A)
    → find p xs ≡ some a
    → find p (xs ++ ys) ≡ some a
find-append_first p [] ys a h = cc
find-append_first p (x ∷ xs) ys a h = let rest = find-append_first p xs ys a in ground arith

pub find-append_last :
    {A : Type 0} (p : A → Bool) (xs : List A) (y : A)
    → find p xs ≡ none
    → p y ≡ true
    → find p (xs ++ y ∷ []) ≡ some y
find-append_last p [] y h hit = rw hit refl
find-append_last p (x ∷ xs) y h hit = let rest = find-append_last p xs y in ground arith
