-- ===== src/BatchMdw/Processor/Interleaving.antt =====
-- What an interleaving of the goroutines leaves in the processor, whatever their order.
use kava_proxy_service.Base.{
  ℕ, zero, suc, String, List, [], ◌∷◌, ◌++◌, map, Option, none, some, ◌≡◌, refl, ap, ◌∙◌, ◌==◌,
  if◌then◌else◌, length, set, replicate, get_elem?, arith, Bool-cases, inl, inr,
}
use kava_proxy_service.BatchMdw.Processor.{
  BatchProcessor, new_batch_processor, set_response, apply_headers, set_err_status, SubRequest,
  writer_of, Action, err_status, respond, headers, goroutine, run, actions_of, goroutine_at,
  IsInterleaving,
}

-- The response of a sub-request: nil if its handler panicked.
abbrev pub outcome : SubRequest → Option String
outcome sub = if sub.panics then none else some (writer_of sub).body

-- A cell that is there is overwritten.
abbrev mark : Option String → Option (Option String) → Option (Option String)
mark v none = none
mark v (some _) = some v

get_elem?-set :
    (xs : List (Option String)) (i j : ℕ) (v : Option String)
    → get_elem? (set xs i v) j ≡ (if i == j then mark v (get_elem? xs j) else get_elem? xs j)
get_elem?-set [] i j v = ground arith
get_elem?-set (x ∷ xs) zero zero v = ground arith
get_elem?-set (x ∷ xs) zero (suc j) v = ground arith
get_elem?-set (x ∷ xs) (suc i) zero v = ground arith
get_elem?-set (x ∷ xs) (suc i) (suc j) v = ground (arith, get_elem?-set xs i j v)

-- A cell after the actions of its goroutine.
answered : List Action → Option (Option String) → Option (Option String)
answered [] o = o
answered (err_status _ ∷ rest) o = answered rest o
answered (respond r ∷ rest) o = answered rest (mark (some r) o)
answered (headers _ ∷ rest) o = answered rest o

responses-run :
    (trace : List (ℕ × Action)) (bp : BatchProcessor) (i : ℕ)
    → get_elem? (run trace bp).responses i
      ≡ answered (actions_of i trace) (get_elem? bp.responses i)
unfolding run answered actions_of
responses-run [] bp i = refl
responses-run ((j, err_status s) ∷ trace) bp i =
    ground (arith, responses-run trace (set_err_status s bp) i)
responses-run ((j, respond r) ∷ trace) bp i =
    ground
      (arith, responses-run trace (set_response j r bp) i, get_elem?-set bp.responses j i (some r))
responses-run ((j, headers h) ∷ trace) bp i =
    ground (arith, responses-run trace (apply_headers h bp) i)

answered-errors :
    (ss : List ℕ) (rest : List Action) (o : Option (Option String))
    → answered (map err_status ss ++ rest) o ≡ answered rest o
unfolding answered
answered-errors [] rest o = refl
answered-errors (s ∷ ss) rest o = answered-errors ss rest o

answered-goroutine : (sub : SubRequest) → answered (goroutine sub) (some none) ≡ some (outcome sub)
unfolding goroutine
answered-goroutine sub = rw answered-errors (elim (Bool-cases sub.panics) [
  | inl e ↦ unfold answered in ground arith
  | inr e ↦ unfold answered in ground arith
])

answered_at :
    (subs : List SubRequest) (i : ℕ)
    → answered (goroutine_at i subs) (get_elem? (replicate (length subs) none) i)
      ≡ get_elem? (map outcome subs) i
unfolding goroutine_at
answered_at [] i = unfold answered in refl
answered_at (sub ∷ subs) zero = answered-goroutine sub
answered_at (sub ∷ subs) (suc i) = answered_at subs i

list_ext : (xs ys : List (Option String)) → ((i : ℕ) → get_elem? xs i ≡ get_elem? ys i) → xs ≡ ys
list_ext [] [] h = refl
list_ext [] (y ∷ ys) h = cc (h 0)
list_ext (x ∷ xs) [] h = cc (h 0)
list_ext (x ∷ xs) (y ∷ ys) h = cc (h 0, list_ext xs ys (λ i. h (suc i)))

-- Each response stands at the index of its request.
pub responses_in_order :
    (subs : List SubRequest) (trace : List (ℕ × Action))
    → IsInterleaving subs trace
    → (run trace (new_batch_processor (length subs))).responses ≡ map outcome subs
unfolding new_batch_processor
responses_in_order subs trace h = list_ext _ _ (λ i.
    responses-run trace _ i
    ∙ (ap (λ rest. answered rest (get_elem? (replicate (length subs) none) i)) (h i)
        ∙ answered_at subs i))
