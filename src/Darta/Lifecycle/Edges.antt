-- ===== src/Darta/Lifecycle/Edges.antt =====
-- The transition table of services/darta-chalani/internal/domain/darta_service.go, edge by edge.
use e_palika.Prelude.{
  ◌≡◌, Bool, true, ◌&&◌, String, List, [], ◌∷◌, string_eq, is_one_of, lookup, arith, eq_iff,
}
use e_palika.Darta.Lifecycle.{valid_transitions, allows, is_valid_status_transition}

-- A test holds of every edge of a table.
abbrev every_target : (String → Bool) → List String → Bool
every_target p [] = true
every_target p (to ∷ l) = p to && every_target p l

abbrev every_edge : (String → String → Bool) → List (String × List String) → Bool
every_edge p [] = true
every_edge p ((from, allowed) ∷ l) = every_target (p from) allowed && every_edge p l

every_target-is_one_of :
    (p : String → Bool) (l : List String) (to : String)
    → every_target p l ≡ true
    → is_one_of to l ≡ true
    → p to ≡ true
every_target-is_one_of p [] to h m = cc
every_target-is_one_of p (x ∷ l) to h m = ground (arith, eq_iff x to, every_target-is_one_of p l to)

every_edge-allows :
    (p : String → String → Bool) (table : List (String × List String)) (from to : String)
    → every_edge p table ≡ true
    → allows (lookup from table) to ≡ true
    → p from to ≡ true
unfolding lookup
every_edge-allows p [] from to h m = cc
every_edge-allows p ((k, allowed) ∷ table) from to h m = ground (
  arith,
  eq_iff k from,
  every_target-is_one_of (p from) allowed to,
  every_edge-allows p table from to,
)

-- What a test finds on every edge of the table holds of every transition that the code accepts.
pub every_transition :
    (p : String → String → Bool)
    → every_edge p valid_transitions ≡ true
    → (from to : String) → is_valid_status_transition from to ≡ true
    → p from to ≡ true
unfolding is_valid_status_transition
every_transition p h from to m = every_edge-allows p valid_transitions from to h m
