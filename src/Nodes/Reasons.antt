-- ===== src/Nodes/Reasons.antt =====
-- Reason codes: appendUniqueReason, normalizeReasons and joinReasons of
-- internal/api/handlers_policy.go.
use Prim.Native.Nat.{Ordering}
use Prim.Native.String as Str
use Prim.Native.String.{◌++◌ as ◌+++◌}
use admirald.Shared.{
  ◌≡◌, ◌↔◌, refl, Bool, true, false, String, List, [], ◌∷◌, ◌++◌, any, arith, if◌then◌else◌, ◌==◌,
}

unfoldable pub append_unique_reason : List String → String → List String
append_unique_reason reasons reason =
    if reason == ""
    then reasons
    else if any (λ existing. existing == reason) reasons
    then reasons
    else reasons ++ reason ∷ []

-- `sort.Strings`
abbrev text_leb : String → String → Bool
text_leb a b = elim (Str.compare a b) [ Ordering.gt ↦ false | _ ↦ true ]

insert_text : String → List String → List String
insert_text s [] = s ∷ []
insert_text s (t ∷ ts) =
    let rest = insert_text s ts in if text_leb s t then s ∷ t ∷ ts else t ∷ rest

sort_texts : List String → List String
sort_texts [] = []
sort_texts (s ∷ ss) = insert_text s (sort_texts ss)

-- Of equal neighbours the first is kept; `last` is the text that was kept before.
drop_repeated : String → List String → List String
drop_repeated last [] = []
drop_repeated last (s ∷ ss) =
    let kept = s ∷ drop_repeated s ss in
    let dropped = drop_repeated last ss in if last == s then dropped else kept

compact_texts : List String → List String
compact_texts [] = []
compact_texts (s ∷ ss) = s ∷ drop_repeated s ss

unfoldable pub normalize_reasons : List String → List String
unfolding sort_texts insert_text compact_texts drop_repeated
normalize_reasons reasons = compact_texts (sort_texts reasons)

-- `strings.Join(reasons, ",")` after `normalizeReasons`
join_texts : List String → String
join_texts [] = ""
join_texts (s ∷ []) = s
join_texts (s ∷ t ∷ ts) = s +++ "," +++ join_texts (t ∷ ts)

unfoldable pub join_reasons : List String → String
unfolding join_texts normalize_reasons
join_reasons reasons = join_texts (normalize_reasons reasons)

-- `if test { reasons = appendUniqueReason(reasons, reason) }`
abbrev pub add_if : Bool → String → List String → List String
add_if test reason reasons = if test then append_unique_reason reasons reason else reasons

-- Whether a list has no entry.
abbrev pub is_empty : List String → Bool
is_empty [] = true
is_empty (_ ∷ _) = false

is_empty-append_one : (xs : List String) (x : String) → is_empty (xs ++ x ∷ []) ≡ false
is_empty-append_one [] x = refl
is_empty-append_one (y ∷ ys) x = refl

is_empty-insert_text : (s : String) (ts : List String) → is_empty (insert_text s ts) ≡ false
unfolding insert_text
is_empty-insert_text s [] = refl
is_empty-insert_text s (t ∷ ts) = ground arith

pub is_empty-normalize_reasons :
    (reasons : List String) → is_empty (normalize_reasons reasons) ≡ is_empty reasons
unfolding normalize_reasons sort_texts compact_texts
is_empty-normalize_reasons [] = refl
is_empty-normalize_reasons (s ∷ ss) =
    let filled = is_empty-insert_text s (sort_texts ss) in ground arith

-- A list of reasons is empty after a test exactly if it was and the test failed.
pub is_empty-add_if :
    (test : Bool) (reason : String) (reasons : List String)
    → reason == "" ≡ false
    → (is_empty (add_if test reason reasons) ≡ true) ↔ ((test ≡ false) × (is_empty reasons ≡ true))
unfolding append_unique_reason
is_empty-add_if test reason [] h = ground arith
is_empty-add_if test reason (x ∷ xs) h =
    let filled = is_empty-append_one (x ∷ xs) reason in ground arith

-- The same for tests in a row, the last one first.
abbrev pub add_all : List (Bool × String) → List String
add_all [] = []
add_all (t ∷ ts) = add_if t.0 t.1 (add_all ts)

pub is_empty-add_all :
    (tests : List (Bool × String))
    → any (λ t. t.1 == "") tests ≡ false
    → (is_empty (add_all tests) ≡ true) ↔ (any (λ t. t.0) tests ≡ false)
is_empty-add_all [] named = ground arith
is_empty-add_all (t ∷ ts) named =
    let here = is_empty-add_if t.0 t.1 (add_all ts) (ground arith) in
    let rest = is_empty-add_all ts (ground arith) in ground arith
