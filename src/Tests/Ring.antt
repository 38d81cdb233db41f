-- ===== src/Tests/Ring.antt =====
-- The token ring at a concrete input.
use ocache.Base.{Bytes, List, [], arith, codes, refl, some, suc, zero, ℕ, ◌∷◌, ◌≡◌}
use ocache.Ring.Lookup.{
  address_of, all_entries, entry_at, get_node_for_key, get_node_id_for_key, update,
}
use ocache.Ring.Owner.{Owns, Sorted, get_node_for_key-Owns}

abbrev two_nodes : List (Bytes × List ℕ)
two_nodes = (codes "n1", 10 ∷ []) ∷ (codes "n2", 20 ∷ []) ∷ []

abbrev at_ports : List (Bytes × Bytes)
at_ports = (codes "n1", codes ":1") ∷ (codes "n2", codes ":2") ∷ []

two_nodes-Sorted : Sorted (all_entries two_nodes)
two_nodes-Sorted zero zero h b = omega arith
two_nodes-Sorted zero (suc zero) h b = omega arith
two_nodes-Sorted zero (suc (suc j)) h b = absurd (omega (arith, b))
two_nodes-Sorted (suc i) zero h b = absurd (omega (arith, h))
two_nodes-Sorted (suc zero) (suc zero) h b = omega arith
two_nodes-Sorted (suc (suc i)) (suc zero) h b = absurd (omega (arith, h))
two_nodes-Sorted (suc i) (suc (suc j)) h b = absurd (omega (arith, b))

-- A hash behind the last token wraps round to the first node.
get_node_for_key-Owns_example :
    let s = update (λ es. es) two_nodes at_ports in
    (i : ℕ) × Owns s.tokens 25 i
    × (get_node_id_for_key (λ k. 25) s (codes "k") ≡ some (entry_at s.tokens i).node_id)
    × (get_node_for_key (λ k. 25) s (codes "k") ≡ address_of at_ports (entry_at s.tokens i).node_id)
get_node_for_key-Owns_example =
    get_node_for_key-Owns (λ k. 25) (λ es. es) two_nodes at_ports (codes "k") two_nodes-Sorted
      (omega arith)

wraps_round :
    get_node_for_key (λ k. 25) (update (λ es. es) two_nodes at_ports) (codes "k")
    ≡ some (codes ":1")
unfolding get_node_for_key update
wraps_round = refl
