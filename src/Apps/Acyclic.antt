-- ===== src/Apps/Acyclic.antt =====
-- The search accepts exactly the services without a cycle.
use mathlib.Core.Path.{subst}
use admirald.Shared.{
  ℕ, zero, suc, ◌≡◌, ◌⊎◌, refl, sym, ap, ◌∙◌, inl, inr, true, false, not, Option, none, some,
  String, List, [], ◌∷◌, keep, length, In, ◌==◌, eq_iff, Bool-cases, errorf, Result, ok, err,
}
use admirald.Apps.Cycles.{
  Service, depends_on_of, requires_of, Marks, Search, done, cycle, out_of_fuel, marked, enter,
  leave, each_of, and_then, visit, names_of, verdict, unmarked, validate_dependency_cycles,
}
use admirald.Apps.Reaches.{
  IsEdge, Reaches, one, onward, IsSafe, safe, safe_no_cycle, marked-In, In-marked, keep_others,
  depends_on_of-missing, requires_of-missing,
}
use admirald.Apps.Terminates.{Ends, no_end, each_of-visit-Ends}

true-false : true ≡ false → ⊥
true-false h = cc

module _ (services : List Service) where
  -- A visited name is being visited, or no endless walk starts at it.
  abbrev IsSettled : Marks → Type 0
  IsSettled m = (x : String) → In x m.visited → In x m.in_stack ⊎ IsSafe services x

  -- What a search from these marks finds: a cycle, or marks with the same stack where a claim holds.
  data Finds (m : Marks) (claim : Type 0) : Search → Type 0 where
    settled :
        (next : Marks)
        → next.in_stack ≡ m.in_stack
        → IsSettled next
        → claim
        → Finds m claim (done next)
    loops : (at x : String) → Reaches services x x → Finds m claim (cycle at)
    unknown : Finds m claim out_of_fuel

  -- Every name on the stack leads to the name.
  abbrev LeadTo : Marks → String → Type 0
  LeadTo m n = (x : String) → In x m.in_stack → Reaches services x n

  Finds-after :
      (m next : Marks) (c d : Type 0) (last : Search)
      → next.in_stack ≡ m.in_stack
      → c
      → Finds next d last
      → Finds m (c × d) last
  Finds-after m next c d _ same here (settled final kept all there) =
      settled final (kept ∙ same) all (here, there)
  Finds-after m next c d _ same here (loops at x p) = loops at x p
  Finds-after m next c d _ same here unknown = unknown

  and_then-Finds :
      (m : Marks) (c d : Type 0) (first : Search) (rest : Marks → Search)
      → Finds m c first
      → ((next : Marks)
          → next.in_stack ≡ m.in_stack
          → IsSettled next
          → c
          → Finds next d (rest next))
      → Finds m (c × d) (and_then first rest)
  and_then-Finds m c d _ rest (settled next same all here) further =
      Finds-after m next c d (rest next) same here (further next same all here)
  and_then-Finds m c d _ rest (loops at x p) further = loops at x p
  and_then-Finds m c d _ rest unknown further = unknown

  Finds-map :
      (m : Marks) (c d : Type 0) (found : Search) → (c → d) → Finds m c found → Finds m d found
  Finds-map m c d _ f (settled next same all here) = settled next same all (f here)
  Finds-map m c d _ f (loops at x p) = loops at x p
  Finds-map m c d _ f unknown = unknown

  abbrev AllSafe : List String → Type 0
  AllSafe ns = (n : String) → In n ns → IsSafe services n

  add_safe : (n : String) (ns : List String) → IsSafe services n × AllSafe ns → AllSafe (n ∷ ns)
  add_safe n ns (first, rest) x (inl e) = subst (IsSafe services) (sym e) first
  add_safe n ns (first, rest) x (inr m) = rest x m

  module _ (go : String → Marks → Search)
      (go_finds : (n : String) (m : Marks)
        → IsSettled m
        → LeadTo m n
        → Finds m (IsSafe services n) (go n m)) where
    each_of-Finds :
        (ns : List String) (m : Marks)
        → IsSettled m
        → ((n : String) → In n ns → LeadTo m n)
        → Finds m (AllSafe ns) (each_of go ns m)
    unfolding each_of
    each_of-Finds [] m all lead = settled m refl all (λ n mem. absurd mem)
    each_of-Finds (n ∷ ns) m all lead =
        Finds-map m (IsSafe services n × AllSafe ns) (AllSafe (n ∷ ns)) _ (add_safe n ns) (
          and_then-Finds m (IsSafe services n) (AllSafe ns) (go n m) (each_of go ns)
            (go_finds n m all (lead n (inl refl)))
            (λ next same settled_next here.
              each_of-Finds ns next settled_next
                (λ k mem x on. lead k (inr mem) x (subst (In x) same on))))

  keep_rest :
      (name : String) (stack : List String)
      → marked name stack ≡ false
      → keep (λ n. not (n == name)) (name ∷ stack) ≡ stack
  keep_rest name stack h = let own = (eq_iff name name).1 refl in rw own (keep_others name stack h)

  leave-Finds :
      (name : String) (m : Marks) (c : Type 0) (found : Search)
      → marked name m.in_stack ≡ false
      → (c → IsSafe services name)
      → Finds (enter name m) c found
      → Finds m (IsSafe services name) (and_then found (λ after. done (leave name after)))
  leave-Finds name m c _ off is_safe (settled next same all here) =
      let popped = ap (keep (λ n. not (n == name))) same ∙ keep_rest name m.in_stack off in
      settled (leave name next) popped
        (λ x mem. elim (all x mem) [
          | inr ok_x ↦ inr ok_x
          | inl on ↦ elim (subst (In x) same on) [
            | inl e ↦ inr (subst (IsSafe services) (sym e) (is_safe here))
            | inr below ↦ inl (subst (In x) (sym popped) below)
          ]
        ])
        (is_safe here)
  leave-Finds name m c _ off is_safe (loops at x p) = loops at x p
  leave-Finds name m c _ off is_safe unknown = unknown

  enter-IsSettled : (name : String) (m : Marks) → IsSettled m → IsSettled (enter name m)
  enter-IsSettled name m all x (inl e) = inl (inl e)
  enter-IsSettled name m all x (inr mem) = elim (all x mem) [
    | inl on ↦ inl (inr on)
    | inr ok_x ↦ inr ok_x
  ]

  enter_leads :
      (name b : String) (m : Marks)
      → LeadTo m name
      → IsEdge services name b
      → LeadTo (enter name m) b
  enter_leads name b m lead e x (inl same) = one (subst (λ y. IsEdge services y b) (sym same) e)
  enter_leads name b m lead e x (inr on) = onward (lead x on) e

  visit-Finds_new :
      (fuel : ℕ) (name : String) (m : Marks)
      → IsSettled m
      → LeadTo m name
      → marked name m.in_stack ≡ false
      → ((n : String) (k : Marks)
          → IsSettled k
          → LeadTo k n
          → Finds k (IsSafe services n) (visit services fuel n k))
      → Finds m (IsSafe services name) (
          and_then
            (and_then
              (each_of (visit services fuel) (depends_on_of name services) (enter name m))
              (each_of (visit services fuel) (requires_of name services)))
            (λ after. done (leave name after)))
  visit-Finds_new fuel name m all lead off go_finds =
      let deps = depends_on_of name services in
      let reqs = requires_of name services in
      leave-Finds name m (AllSafe deps × AllSafe reqs) _ off
        (λ both. safe name (λ b e. elim e [ inl d ↦ both.0 b d | inr r ↦ both.1 b r ]))
        (and_then-Finds (enter name m) (AllSafe deps) (AllSafe reqs) _
          (each_of (visit services fuel) reqs)
          (each_of-Finds (visit services fuel) go_finds deps (enter name m)
            (enter-IsSettled name m all) (λ n mem. enter_leads name n m lead (inl mem)))
          (λ next same all_next here.
            each_of-Finds (visit services fuel) go_finds reqs next all_next
              (λ n mem x on. enter_leads name n m lead (inr mem) x (subst (In x) same on))))

  visit-Finds :
      (fuel : ℕ) (name : String) (m : Marks)
      → IsSettled m
      → LeadTo m name
      → Finds m (IsSafe services name) (visit services fuel name m)
  unfolding visit
  visit-Finds zero name m all lead = unknown
  visit-Finds (suc fuel) name m all lead = elim (Bool-cases (marked name m.in_stack)) [
    | inl on ↦ rw (visit, on) (loops name name (lead name (marked-In name m.in_stack on)))
    | inr off ↦ elim (Bool-cases (marked name m.visited)) [
      | inl old ↦
          rw (visit, off, old)
            (settled m refl all (elim (all name (marked-In name m.visited old)) [
              | inl on ↦
                  let on_stack = In-marked name m.in_stack on in
                  absurd (true-false (sym on_stack ∙ off))
              | inr ok_name ↦ ok_name
            ]))
      | inr new ↦
          rw (visit, off, new)
            (visit-Finds_new fuel name m all lead off
              (λ n k settled_k lead_k. visit-Finds fuel n k settled_k lead_k))
    ]
  ]

  edge_named : (a b : String) → IsEdge services a b → marked a (names_of services) ≡ true
  edge_named a b e = elim (Bool-cases (marked a (names_of services))) [
    | inl named ↦ named
    | inr missing ↦ absurd (elim e [
      | inl d ↦ subst (In b) (depends_on_of-missing a services missing) d
      | inr r ↦ subst (In b) (requires_of-missing a services missing) r
    ])
  ]

  Reaches-names_of : (a b : String) → Reaches services a b → marked a (names_of services) ≡ true
  Reaches-names_of a b (one e) = edge_named a b e
  Reaches-names_of a b (onward {b = m} p e) = Reaches-names_of a m p

  -- The answers: success where no service leads back to itself, and an error where one does.
  pub data IsChecked : Option (Result (Unit {0})) → Type 0 where
    accepted : ((x : String) → Reaches services x x → ⊥) → IsChecked (some (ok tt))
    rejected :
        (at x : String)
        → Reaches services x x
        → IsChecked (some (err (errorf "service dependency cycle detected involving %q" (at ∷ []))))

  never_unknown : Ends unmarked out_of_fuel → IsChecked none
  never_unknown e = absurd (no_end unmarked e)

  verdict_checked :
      (found : Search)
      → Finds unmarked (AllSafe (names_of services)) found
      → Ends unmarked found
      → IsChecked (verdict found)
  verdict_checked _ (settled next same all here) e = accepted (λ x p.
      safe_no_cycle services x (here x (marked-In x (names_of services) (Reaches-names_of x x p)))
        p)
  verdict_checked _ (loops at x p) e = rejected at x p
  verdict_checked _ unknown e = never_unknown e

  -- For all services, in any order, the check of dependencies ends; it succeeds exactly if no service leads
  -- back to itself along `depends_on` and `requires`, and answers an error otherwise.
  pub validate_dependency_cycles-IsChecked : IsChecked (validate_dependency_cycles services)
  unfolding validate_dependency_cycles
  validate_dependency_cycles-IsChecked =
      verdict_checked _
        (each_of-Finds (visit services (suc (length services)))
          (λ n m all lead. visit-Finds (suc (length services)) n m all lead) (names_of services)
          unmarked (λ x mem. absurd mem) (λ n mem x on. absurd on))
        (each_of-visit-Ends services unmarked)
