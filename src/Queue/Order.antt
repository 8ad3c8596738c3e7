-- ===== src/Queue/Order.antt =====
-- Which command a claim takes: the first in the queue's order among those that are ready.
use mathlib.Core.Path.{subst}
use admirald.Shared.{
  ℕ, ◌≡◌, refl, sym, ◌∙◌, inl, inr, Bool, true, false, Option, none, some, String, List, [], ◌∷◌,
  arith, if◌then◌else◌, keep, All, All-In, In, ap, Bool-cases,
}
use admirald.Queue.Command.{FleetCommand}
use admirald.Queue.Claim.{is_ready, comes_before, first_in_order, next_command}

-- What a filter lets through stood in the list and passed the test.
pub In-keep :
    {A : Type 0} (p : A → Bool) (x : A) (xs : List A) → In x (keep p xs) → In x xs × (p x ≡ true)
In-keep p x [] m = absurd m
In-keep p x (y ∷ ys) m = elim (Bool-cases (p y)) [
  | inl hit ↦ elim (subst (λ b. In x (if b then y ∷ keep p ys else keep p ys)) hit m) [
    | inl e ↦ (inl e, rw e hit)
    | inr r ↦ let (old, passed) = In-keep p x ys r in (inr old, passed)
  ]
  | inr miss ↦
      let (old, passed) =
        In-keep p x ys (subst (λ b. In x (if b then y ∷ keep p ys else keep p ys)) miss m) in
      (inr old, passed)
]

pub keep-In :
    {A : Type 0} (p : A → Bool) (x : A) (xs : List A) → In x xs → p x ≡ true → In x (keep p xs)
keep-In p x [] m hit = absurd m
keep-In p x (y ∷ ys) (inl e) hit =
    subst (λ b. In x (if b then y ∷ keep p ys else keep p ys)) (sym hit ∙ rw e refl) (inl e)
keep-In p x (y ∷ ys) (inr m) hit = elim (Bool-cases (p y)) [
  | inl h ↦ rw h (inr (keep-In p x ys m hit))
  | inr h ↦ rw h (keep-In p x ys m hit)
]

-- The order is total: a row that is not before `c` stays not before anything that is before `c`.
not_before_trans :
    (a c r : FleetCommand)
    → comes_before a c ≡ false
    → comes_before c r ≡ false
    → comes_before a r ≡ false
not_before_trans a c r h k = ground arith

before_not_before :
    (a c r : FleetCommand)
    → comes_before a c ≡ true
    → comes_before a r ≡ false
    → comes_before c r ≡ false
before_not_before a c r h k = ground arith

module _ (best c : FleetCommand) (cs : List FleetCommand) where
  first_in_order-sooner :
      comes_before c best ≡ true → first_in_order best (c ∷ cs) ≡ first_in_order c cs
  unfolding first_in_order
  first_in_order-sooner h = ap (λ b. first_in_order (if b then c else best) cs) h

  first_in_order-later :
      comes_before c best ≡ false → first_in_order best (c ∷ cs) ≡ first_in_order best cs
  unfolding first_in_order
  first_in_order-later h = ap (λ b. first_in_order (if b then c else best) cs) h

first_in_order-In :
    (best : FleetCommand) (cs : List FleetCommand) → In (first_in_order best cs) (best ∷ cs)
unfolding first_in_order
first_in_order-In best [] = inl refl
first_in_order-In best (c ∷ cs) = elim (Bool-cases (comes_before c best)) [
  | inl h ↦ inr (
      subst (λ r. In r (c ∷ cs)) (sym (first_in_order-sooner best c cs h)) (first_in_order-In c cs))
  | inr h ↦ elim (first_in_order-In best cs) [
    | inl e ↦ inl (first_in_order-later best c cs h ∙ e)
    | inr m ↦ inr (inr (subst (λ r. In r cs) (sym (first_in_order-later best c cs h)) m))
  ]
]

-- No row of the list comes before `r`.
abbrev pub NoneBefore : FleetCommand → List FleetCommand → Type 0
NoneBefore r cs = All (λ x. comes_before x r ≡ false) cs

first_in_order-NoneBefore :
    (best : FleetCommand) (cs : List FleetCommand) → NoneBefore (first_in_order best cs) (best ∷ cs)
unfolding first_in_order
first_in_order-NoneBefore best [] = (ground arith, tt)
first_in_order-NoneBefore best (c ∷ cs) = elim (Bool-cases (comes_before c best)) [
  | inl h ↦
      let r = first_in_order c cs in
      let (top, rest) = first_in_order-NoneBefore c cs in
      subst (λ r. NoneBefore r (best ∷ c ∷ cs)) (sym (first_in_order-sooner best c cs h))
        (before_not_before c best r h top, (top, rest))
  | inr h ↦
      let r = first_in_order best cs in
      let (top, rest) = first_in_order-NoneBefore best cs in
      subst (λ r. NoneBefore r (best ∷ c ∷ cs)) (sym (first_in_order-later best c cs h))
        (top, (not_before_trans c best r h top, rest))
]

module _ (locked : String → Bool) (now : ℕ) (node : String) where
  -- What `next_command` picks is a row of the table that is ready, and no other ready row comes
  -- before it.
  pub next_command-first :
      (table : List FleetCommand) (c : FleetCommand)
      → next_command locked now node table ≡ some c
      → In c table
        × (is_ready locked now node c ≡ true)
        × ((x : FleetCommand)
            → In x table
            → is_ready locked now node x ≡ true
            → comes_before x c ≡ false)
  unfolding next_command
  next_command-first table c h = go (keep ready table) refl h
    where
      ready : FleetCommand → Bool
      ready = is_ready locked now node

      pick : List FleetCommand → Option FleetCommand
      pick = elim [ [] ↦ none | b ∷ bs ↦ some (first_in_order b bs) ]

      go :
          (ks : List FleetCommand)
          → keep ready table ≡ ks
          → pick ks ≡ some c
          → In c table
            × (ready c ≡ true)
            × ((x : FleetCommand) → In x table → ready x ≡ true → comes_before x c ≡ false)
      go [] e p = cc
      go (b ∷ bs) e p =
          let at : first_in_order b bs ≡ c = cc in
          let mem : In c (keep ready table) =
            subst (λ r. In r (keep ready table)) at
              (subst (λ l. In (first_in_order b bs) l) (sym e) (first_in_order-In b bs)) in
          let (old, hit) = In-keep ready c table mem in
          (
            old,
            hit,
            λ x m r.
                All-In (λ y. comes_before y c ≡ false) x (b ∷ bs)
                  (subst (λ r. NoneBefore r (b ∷ bs)) at (first_in_order-NoneBefore b bs))
                  (subst (λ l. In x l) e (keep-In ready x table m r)),
          )

  -- Nothing is picked exactly when no row is ready.
  pub next_command-none :
      (table : List FleetCommand)
      → next_command locked now node table ≡ none
      → (x : FleetCommand) → In x table
      → is_ready locked now node x ≡ false
  unfolding next_command
  next_command-none table h x m = elim (Bool-cases (is_ready locked now node x)) [
    | inl r ↦ absurd (
        go (keep (is_ready locked now node) table) h
          (keep-In (is_ready locked now node) x table m r))
    | inr r ↦ r
  ]
    where
      go :
          (ks : List FleetCommand)
          → (elim ks as (λ _. Option FleetCommand) [
            | [] ↦ none
            | b ∷ bs ↦ some (first_in_order b bs)
          ])
            ≡ none
          → In x ks
          → ⊥
      go [] e k = k
      go (b ∷ bs) e k = cc
