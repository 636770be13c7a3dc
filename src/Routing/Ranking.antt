-- ===== src/Routing/Ranking.antt =====
-- `_rank_pool`: the models of a pool, each once, in the order in which they are tried.
use readyagents_core.Common.{
  ℕ, suc, String, Bool, ◌&&◌, ◌||◌, none, some, List, [], ◌∷◌, ◌++◌, ◌==◌, if◌then◌else◌, str_eq,
  ltb, Dict, get_or, contains,
}
use readyagents_core.Cost.Prices.{quote_model}
use readyagents_core.Routing.Capabilities.{CapabilityMatrix, lookup_model}
use readyagents_core.Routing.Rules.{
  Strategy, cheapest_capable, fastest, highest_quality, local_only, pin,
}

abbrev latency_ranks : Dict ℕ
latency_ranks = ("fast", 0) ∷ ("standard", 1) ∷ ("slow", 2) ∷ []

abbrev quality_ranks : Dict ℕ
quality_ranks = ("frontier", 0) ∷ ("standard", 1) ∷ ("compact", 2) ∷ []

unfoldable pub latency_rank : CapabilityMatrix → String → ℕ
unfolding get_or
latency_rank matrix ref = elim (lookup_model matrix ref) [
  | none ↦ 99
  | some caps ↦ get_or caps.latency_class 99 latency_ranks
]

unfoldable pub quality_rank : CapabilityMatrix → String → ℕ
unfolding get_or
quality_rank matrix ref = elim (lookup_model matrix ref) [
  | none ↦ 99
  | some caps ↦ get_or caps.quality_class 99 quality_ranks
]

-- `price_of` is the sum of the two prices of a rate.
unfoldable pub price_rank {ℓ} : {Rate : Type ℓ} → (Rate → ℕ) → Dict Rate → Dict Rate → String → ℕ
price_rank price_of models prefixes ref = elim (quote_model models prefixes ref) [
  | none ↦ 1000000000000000000
  | some rate ↦ price_of rate
]

-- The items that are not empty, each where it stands first. `seen` is what the list has so far.
unfoldable pub unique_from : List String → List String → List String
unfolding contains
unique_from seen [] = seen
unique_from seen (item ∷ pool) =
    unique_from (if str_eq item "" || contains item seen then seen else seen ++ item ∷ []) pool

-- `list.index`, for an item that is in the list.
unfoldable pub index_of : String → List String → ℕ
index_of item [] = 0
index_of item (x ∷ xs) = let rest = index_of item xs in if str_eq x item then 0 else suc rest

-- The order of the pairs of a rank and an index.
unfoldable pub comes_before : (String → ℕ) → List String → String → String → Bool
unfolding index_of
comes_before rank unique a b =
    ltb (rank a) (rank b) || rank a == rank b && ltb (index_of a unique) (index_of b unique)

module _ (before : String → String → Bool) where
  unfoldable pub insert_ref : String → List String → List String
  insert_ref a [] = a ∷ []
  insert_ref a (b ∷ refs) =
      let rest = insert_ref a refs in if before b a then b ∷ rest else a ∷ b ∷ refs

  unfoldable pub sort_refs : List String → List String
  unfolding insert_ref
  sort_refs [] = []
  sort_refs (a ∷ refs) = insert_ref a (sort_refs refs)

unfoldable pub ranked : (String → ℕ) → List String → List String
unfolding sort_refs
ranked rank unique = sort_refs (comes_before rank unique) unique

unfoldable pub rank_pool :
    CapabilityMatrix → (String → ℕ) → Strategy → List String → List String × String
unfolding ranked unique_from
rank_pool matrix price strategy pool =
    let unique = unique_from [] pool in
    elim strategy [
      | fastest ↦ (ranked (latency_rank matrix) unique, "fastest by declared latency_class")
      | highest_quality ↦
          (ranked (quality_rank matrix) unique, "highest_quality by declared quality_class")
      | local_only ↦ (unique, "local_only (hosted providers excluded)")
      | cheapest_capable ↦ (ranked price unique, "cheapest_capable by price table")
      | pin ↦ (ranked price unique, "cheapest_capable by price table")
    ]
