-- ===== src/Console/Architecture/Laws.antt =====
-- The edges of apps/web/src/lib/architecture.ts between its nodes.
use payments_processor.Common.{
  ◌≡◌, refl, Bool, true, false, not, ◌&&◌, List, [], ◌∷◌, String, str_eq, filter_by, ltb, All,
}
use payments_processor.Console.Architecture.{
  ArchNode, arch_nodes, Edge, arch_edges, Side, top, left, right, bottom, Handle, card_handles,
}

-- The nodes of an id, and the handles of an id at one end of an edge.
abbrev pub nodes_of : String → List ArchNode
nodes_of id = filter_by (λ (n : ArchNode). str_eq n.id id) arch_nodes

abbrev pub ends_of : Bool → String → List Handle
ends_of true id = filter_by (λ (h : Handle). h.is_target && str_eq h.id id) card_handles
ends_of false id = filter_by (λ (h : Handle). not h.is_target && str_eq h.id id) card_handles

-- A line that leaves a node on one side goes that way, and so for the side where it arrives.
abbrev faces : Side → ArchNode → ArchNode → Bool
faces top a b = ltb b.y a.y
faces bottom a b = ltb a.y b.y
faces left a b = ltb b.x a.x
faces right a b = ltb a.x b.x

abbrev pub drawn : List ArchNode → List Handle → List ArchNode → List Handle → Bool
drawn (a ∷ []) (h ∷ []) (b ∷ []) (k ∷ []) = faces h.side a b && faces k.side b a
drawn _ _ _ _ = false

abbrev pub is_drawn : Edge → Bool
is_drawn e =
    drawn (nodes_of e.source) (ends_of false e.source_handle) (nodes_of e.target)
      (ends_of true e.target_handle)

-- Every edge of the diagram can be drawn: exactly one node has the id at each of its ends, exactly
-- one handle there has the id of that end and is of the right kind, and each of the two handles is on
-- a side that looks towards the other node.
pub arch_edges_drawn : All (λ e. is_drawn e ≡ true) arch_edges
arch_edges_drawn =
    (refl, (refl, (refl, (refl, (refl, (refl, (refl, (refl, (refl, (refl, tt))))))))))
