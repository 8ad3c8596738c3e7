-- ===== src/Nodes/Sorted.antt =====
-- Sorting by identifier keeps the rows, and lookups by a unique key.
use mathlib.Core.Path.{subst}
use admirald.Shared.{
  ◌≡◌, refl, sym, ◌⊎◌, inl, inr, Bool, true, false, some, String, List, [], ◌∷◌, ◌++◌, map, In, All,
  Distinct, find, Bool-cases, if◌then◌else◌,
}
use admirald.Nodes.Node.{Node}
use admirald.Nodes.Select.{insert_node, sort_nodes, text_lt}

insert_node-In : (n m : Node) (ns : List Node) → In m (insert_node n ns) → (m ≡ n) ⊎ In m ns
unfolding insert_node
insert_node-In n m [] h = h
insert_node-In n m (x ∷ xs) h =
    let rest = insert_node-In n m xs in
    elim (Bool-cases (text_lt x.id n.id)) [
      | inl lt ↦ elim (subst (λ b. In m (if b then x ∷ insert_node n xs else n ∷ x ∷ xs)) lt h) [
        | inl e ↦ inr (inl e)
        | inr r ↦ elim (rest r) [ inl e ↦ inl e | inr o ↦ inr (inr o) ]
      ]
      | inr ge ↦ subst (λ b. In m (if b then x ∷ insert_node n xs else n ∷ x ∷ xs)) ge h
    ]

In-insert_node : (n m : Node) (ns : List Node) → (m ≡ n) ⊎ In m ns → In m (insert_node n ns)
unfolding insert_node
In-insert_node n m [] h = h
In-insert_node n m (x ∷ xs) h = elim (Bool-cases (text_lt x.id n.id)) [
  | inl lt ↦ rw lt (elim h [
    | inl e ↦ inr (In-insert_node n m xs (inl e))
    | inr (inl e) ↦ inl e
    | inr (inr o) ↦ inr (In-insert_node n m xs (inr o))
  ])
  | inr ge ↦ rw ge h
]

pub sort_nodes-In : (m : Node) (ns : List Node) → In m (sort_nodes ns) → In m ns
unfolding sort_nodes
sort_nodes-In m [] h = h
sort_nodes-In m (n ∷ ns) h = elim (insert_node-In n m (sort_nodes ns) h) [
  | inl e ↦ inl e
  | inr o ↦ inr (sort_nodes-In m ns o)
]

pub In-sort_nodes : (m : Node) (ns : List Node) → In m ns → In m (sort_nodes ns)
unfolding sort_nodes
In-sort_nodes m [] h = h
In-sort_nodes m (n ∷ ns) (inl e) = In-insert_node n m (sort_nodes ns) (inl e)
In-sort_nodes m (n ∷ ns) (inr o) = In-insert_node n m (sort_nodes ns) (inr (In-sort_nodes m ns o))

id-insert_node :
    (n : Node) (ns : List Node) (k : String)
    → In k (map (λ m. m.id) (insert_node n ns))
    → (k ≡ n.id) ⊎ In k (map (λ m. m.id) ns)
unfolding insert_node
id-insert_node n [] k h = h
id-insert_node n (x ∷ xs) k h =
    let rest = id-insert_node n xs k in
    elim (Bool-cases (text_lt x.id n.id)) [
      | inl lt ↦
          elim (subst (λ b. In k (map (λ m. m.id) (if b then x ∷ insert_node n xs else n ∷ x ∷ xs)))
            lt h) [
              | inl e ↦ inr (inl e)
              | inr r ↦ elim (rest r) [ inl e ↦ inl e | inr o ↦ inr (inr o) ]
            ]
      | inr ge ↦
          subst (λ b. In k (map (λ m. m.id) (if b then x ∷ insert_node n xs else n ∷ x ∷ xs))) ge h
    ]

Distinct-insert_node :
    (n : Node) (ns : List Node)
    → (In n.id (map (λ m. m.id) ns) → ⊥)
    → Distinct (map (λ m. m.id) ns)
    → Distinct (map (λ m. m.id) (insert_node n ns))
unfolding insert_node
Distinct-insert_node n [] new d = ((λ m. m), tt)
Distinct-insert_node n (x ∷ xs) new d = elim (Bool-cases (text_lt x.id n.id)) [
  | inl lt ↦ rw lt (
    λ m. elim (id-insert_node n xs x.id m) [ inl e ↦ new (inl (sym e)) | inr o ↦ d.0 o ],
    Distinct-insert_node n xs (λ m. new (inr m)) d.1,
  )
  | inr ge ↦ rw ge (new, d)
]

id-sort_nodes :
    (k : String) (ns : List Node)
    → In k (map (λ m. m.id) (sort_nodes ns))
    → In k (map (λ m. m.id) ns)
unfolding sort_nodes
id-sort_nodes k [] h = h
id-sort_nodes k (n ∷ ns) h = elim (id-insert_node n (sort_nodes ns) k h) [
  | inl e ↦ inl e
  | inr o ↦ inr (id-sort_nodes k ns o)
]

pub Distinct-sort_nodes :
    (ns : List Node) → Distinct (map (λ m. m.id) ns) → Distinct (map (λ m. m.id) (sort_nodes ns))
unfolding sort_nodes
Distinct-sort_nodes [] d = d
Distinct-sort_nodes (n ∷ ns) d =
    Distinct-insert_node n (sort_nodes ns) (λ m. d.0 (id-sort_nodes n.id ns m))
      (Distinct-sort_nodes ns d.1)

-- A lookup that misses answers what is added.
pub find-append_miss :
    {A : Type 0} (p : A → Bool) (xs : List A) (a : A)
    → All (λ x. p x ≡ false) xs
    → p a ≡ true
    → find p (xs ++ a ∷ []) ≡ some a
find-append_miss p [] a h hit = rw hit refl
find-append_miss p (x ∷ xs) a h hit = rw (h.0) (find-append_miss p xs a h.1 hit)
