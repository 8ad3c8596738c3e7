-- ===== src/Nodes/Choosing.antt =====
-- The loop of the selection keeps its choice the best of the nodes it has seen.
use mathlib.Core.Path.{subst}
use admirald.Shared.{
  ℕ, ◌≡◌, ◌≢◌, refl, sym, ◌∙◌, In-append_one, In-append_old, In-append_new, In-map, In-map_append,
  Distinct-middle, All-append_left, append_one, append_nil, find-append_first, All-In, inl, inr, ℤ,
  true, false, some, String, List, [], ◌∷◌, ◌++◌, map, ◌==◌, eq_iff, if◌then◌else◌, In, All, find,
  Distinct, Bool-cases, All-append, All-map,
}
use admirald.Nodes.Node.{Node}
use admirald.Nodes.Capacity.{Floats}
use admirald.Nodes.Policy.{Evaluation}
use admirald.Nodes.Select.{Selection, first_or, is_better, best_of, is_wanted, choose, select_loop}
use admirald.Nodes.Fits.{evaluate_node_for_tier-Fits}
use admirald.Nodes.Chosen.{
  IsBelow, IsBelow-trans, is_better-true, is_better-false, IsCandidate, eval, IsBest, IsChoice,
  nobody, somebody, Loop, idle, busy, eval_id, Loop-skip, Loop-take,
}

module _ {F : Type 0} (fl : Floats F) (now : ℕ) (requested : String) (ram disk : ℤ) where
  best_of-found :
      (chosen : String) (e b : Evaluation) (evaluations : List Evaluation)
      → find (λ y. y.node_id == chosen) evaluations ≡ some b
      → best_of chosen (first_or e evaluations) evaluations ≡ b
  unfolding best_of
  best_of-found chosen e b evaluations found = rw (best_of, found) refl

  choose-busy :
      (chosen : String) (e b : Evaluation) (evaluations : List Evaluation)
      → e.eligible ≡ true
      → chosen == "" ≡ false
      → find (λ y. y.node_id == chosen) evaluations ≡ some b
      → choose fl now requested ram disk chosen e evaluations
        ≡ (if is_better chosen e b then e.node_id else chosen)
  unfolding choose
  choose-busy chosen e b evaluations eligible filled found =
      rw (filled, best_of-found chosen e b evaluations found, eligible) refl

  choose-skip :
      (chosen : String) (e : Evaluation) (evaluations : List Evaluation)
      → e.eligible ≡ false
      → choose fl now requested ram disk chosen e evaluations ≡ chosen
  unfolding choose
  choose-skip chosen e evaluations h = rw h refl

  choose-first :
      (e : Evaluation) (evaluations : List Evaluation)
      → e.eligible ≡ true
      → choose fl now requested ram disk "" e evaluations ≡ e.node_id
  unfolding choose
  choose-first e evaluations h = rw h refl

  -- One more node, with a new identifier that is not empty.
  module _ (seen : List Node) (chosen : String) (evaluations : List Evaluation) (x : Node)
      (new : In x.id (map (λ m. m.id) seen) → ⊥)
      (known : All (λ e. In e.node_id (map (λ m. m.id) seen)) evaluations)
      (wanted : is_wanted fl now requested ram disk x ≡ true)
      (named : All (λ n. n.id ≢ "") seen) where
    abbrev Next : String → Type 0
    Next c =
        Loop fl now requested ram disk (seen ++ x ∷ []) c
          (evaluations ++ eval fl now requested ram disk x ∷ [])

    Loop-eligible :
        (eval fl now requested ram disk x).eligible ≡ true
        → Loop fl now requested ram disk seen chosen evaluations
        → Next (
            choose fl now requested ram disk chosen
              (eval fl now requested ram disk x)
              (evaluations ++ eval fl now requested ram disk x ∷ []))
    Loop-eligible eligible (idle e none_fits) =
        let candidate : IsCandidate fl now requested ram disk x =
          (wanted, (evaluate_node_for_tier-Fits fl now x ram disk).0 eligible) in
        let to =
          choose-first (eval fl now requested ram disk x)
            (evaluations ++ eval fl now requested ram disk x ∷ []) eligible
          ∙ eval_id fl now requested ram disk x in
        subst
          (λ c. Next (
            choose fl now requested ram disk c (eval fl now requested ram disk x)
              (evaluations ++ eval fl now requested ram disk x ∷ [])))
          (sym e)
          (subst Next (sym to) (
            Loop-take fl now requested ram disk seen evaluations x new known candidate
              (λ m mem c. absurd (none_fits m mem c))))
    Loop-eligible eligible (busy n e b f) =
        let candidate : IsCandidate fl now requested ram disk x =
          (wanted, (evaluate_node_for_tier-Fits fl now x ram disk).0 eligible) in
        let filled : chosen == "" ≡ false = elim (Bool-cases (chosen == "")) [
          | inl h ↦
              absurd (All-In (λ m. m.id ≢ "") n seen named b.listed (e ∙ (eq_iff chosen "").0 h))
          | inr h ↦ h
        ] in
        let there =
          find-append_first (λ y. y.node_id == chosen) evaluations
            (eval fl now requested ram disk x ∷ []) (eval fl now requested ram disk n) f in
        let to =
          choose-busy chosen (eval fl now requested ram disk x) (eval fl now requested ram disk n)
            (evaluations ++ eval fl now requested ram disk x ∷ []) eligible filled there in
        subst Next (sym to)
          (elim (Bool-cases (
            is_better chosen (eval fl now requested ram disk x)
              (eval fl now requested ram disk n))) [
                | inl better ↦ rw better (
                    subst Next (sym (eval_id fl now requested ram disk x)) (
                      Loop-take fl now requested ram disk seen evaluations x new known candidate
                        (λ m mem c.
                          IsBelow-trans (eval fl now requested ram disk m)
                            (eval fl now requested ram disk n) (eval fl now requested ram disk x)
                            (b.best m mem c)
                            (is_better-true chosen (eval fl now requested ram disk x)
                              (eval fl now requested ram disk n) better))))
                | inr worse ↦ rw worse (
                    busy n e
                      (record {
                        listed = In-append_old n seen (x ∷ []) b.listed;
                        candidate = b.candidate;
                        best = λ m mem c. elim (In-append_one m x seen mem) [
                          | inl old ↦ b.best m old c
                          | inr same ↦
                              subst
                                (λ y.
                                  IsBelow (eval fl now requested ram disk y)
                                    (eval fl now requested ram disk n))
                                (sym same)
                                (is_better-false chosen (eval fl now requested ram disk x)
                                  (eval fl now requested ram disk n) worse)
                        ];
                      })
                      there)
              ])

    Loop-choose :
        Loop fl now requested ram disk seen chosen evaluations
        → Next (
            choose fl now requested ram disk chosen
              (eval fl now requested ram disk x)
              (evaluations ++ eval fl now requested ram disk x ∷ []))
    Loop-choose l = elim (Bool-cases ((eval fl now requested ram disk x).eligible)) [
      | inl eligible ↦ Loop-eligible eligible l
      | inr rejected ↦
          subst Next
            (sym (
              choose-skip chosen (eval fl now requested ram disk x)
                (evaluations ++ eval fl now requested ram disk x ∷ []) rejected))
            (Loop-skip fl now requested ram disk seen chosen evaluations
              (evaluations ++ eval fl now requested ram disk x ∷ []) x
              (λ a.
                find-append_first (λ e. e.node_id == chosen) evaluations
                  (eval fl now requested ram disk x ∷ []) a)
              (λ c. let fits = (evaluate_node_for_tier-Fits fl now x ram disk).1 c.1 in cc) l)
    ]

  -- What the loop goes on with after a node.
  select_loop-other :
      (x : Node) (ns : List Node) (r : Selection)
      → is_wanted fl now requested ram disk x ≡ false
      → select_loop fl now requested ram disk (x ∷ ns) r
        ≡ select_loop fl now requested ram disk ns r
  unfolding select_loop
  select_loop-other x ns r h = rw (select_loop, h) refl

  abbrev chosen_next : Node → Selection → Selection
  chosen_next x r = record {
    node_id =
        choose fl now requested ram disk r.node_id (eval fl now requested ram disk x)
          (r.evaluations ++ eval fl now requested ram disk x ∷ []);
    evaluations = r.evaluations ++ eval fl now requested ram disk x ∷ [];
  }

  select_loop-wanted :
      (x : Node) (ns : List Node) (r : Selection)
      → is_wanted fl now requested ram disk x ≡ true
      → select_loop fl now requested ram disk (x ∷ ns) r
        ≡ select_loop fl now requested ram disk ns (chosen_next x r)
  unfolding select_loop
  select_loop-wanted x ns r h = rw (select_loop, h) refl

  -- The loop over the remaining nodes.
  module _ (nodes : List Node) (distinct : Distinct (map (λ m. m.id) nodes))
      (named : All (λ n. n.id ≢ "") nodes) where
    select_loop-IsChoice :
        (seen ns : List Node) (r : Selection)
        → seen ++ ns ≡ nodes
        → All (λ e. In e.node_id (map (λ m. m.id) seen)) r.evaluations
        → Loop fl now requested ram disk seen r.node_id r.evaluations
        → IsChoice fl now requested ram disk nodes
            (select_loop fl now requested ram disk ns r).node_id
    unfolding select_loop
    select_loop-IsChoice seen [] r split known (idle e h) =
        nobody e (λ m mem. h m (subst (In m) (sym split ∙ append_nil seen) mem))
    select_loop-IsChoice seen [] r split known (busy n e b f) =
        somebody n e
          (subst (λ l. IsBest fl now requested ram disk l n) (sym (append_nil seen) ∙ split) b)
    select_loop-IsChoice seen (x ∷ ns) r split known l =
        let d = subst (λ xs. Distinct (map (λ m. m.id) xs)) (sym split) distinct in
        let new = Distinct-middle (λ m. m.id) seen x ns d in
        let old_named =
          All-append_left (λ n. n.id ≢ "") seen (x ∷ ns)
            (subst (All (λ n. n.id ≢ "")) (sym split) named) in
        let rest = append_one seen x ns ∙ split in
        let kept =
          All-map (λ e mem. In-map_append (λ m. m.id) e.node_id seen (x ∷ []) mem) r.evaluations
            known in
        elim (Bool-cases (is_wanted fl now requested ram disk x)) [
          | inr other ↦
              subst (λ s. IsChoice fl now requested ram disk nodes s.node_id)
                (sym (select_loop-other x ns r other))
                (select_loop-IsChoice (seen ++ x ∷ []) ns r rest kept (
                  Loop-skip fl now requested ram disk seen r.node_id r.evaluations r.evaluations x
                    (λ a h. h) (λ c. cc) l))
          | inl wanted ↦
              let here =
                subst (λ k. In k (map (λ m. m.id) (seen ++ x ∷ [])))
                  (sym (eval_id fl now requested ram disk x))
                  (In-map (λ m. m.id) x (seen ++ x ∷ []) (In-append_new x seen)) in
              subst (λ s. IsChoice fl now requested ram disk nodes s.node_id)
                (sym (select_loop-wanted x ns r wanted))
                (select_loop-IsChoice (seen ++ x ∷ []) ns (chosen_next x r) rest
                  (All-append (λ e. In e.node_id (map (λ m. m.id) (seen ++ x ∷ []))) r.evaluations
                    (eval fl now requested ram disk x ∷ []) kept (here, tt))
                  (Loop-choose seen r.node_id r.evaluations x new known wanted old_named l))
        ]

  -- The loop over all nodes answers a choice among them.
  pub IsChoice-select_loop :
      (nodes : List Node)
      → Distinct (map (λ m. m.id) nodes)
      → All (λ n. n.id ≢ "") nodes
      → IsChoice fl now requested ram disk nodes
          (select_loop fl now requested ram disk nodes
            (record { node_id = ""; evaluations = [] })).node_id
  IsChoice-select_loop nodes distinct named =
      select_loop-IsChoice nodes distinct named [] nodes (record { node_id = ""; evaluations = [] })
        refl tt (idle refl (λ m mem c. mem))

  -- A choice depends on the entries of the list only.
  pub IsChoice-same :
      (xs ys : List Node) (chosen : String)
      → ((m : Node) → In m xs → In m ys)
      → ((m : Node) → In m ys → In m xs)
      → IsChoice fl now requested ram disk xs chosen
      → IsChoice fl now requested ram disk ys chosen
  IsChoice-same xs ys chosen to from (nobody e h) = nobody e (λ m mem. h m (from m mem))
  IsChoice-same xs ys chosen to from (somebody n e b) = somebody n e (record {
    listed = to n b.listed;
    candidate = b.candidate;
    best = λ m mem. b.best m (from m mem);
  })
