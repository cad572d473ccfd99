-- ===== src/Tree/Level.antt =====
-- One level of `Graph`: the children that it draws, and those that it goes on from.
use mqttview.Common.{
  take-append_enough, take_all, ℕ, suc, ◌+◌, ◌≤◌, ◌<◌, ◌≡◌, sym, ap, ◌∙◌, inl, inr, true, false,
  ◌||◌, List, [], ◌∷◌, ◌++◌, map, map-append, append-nil, append_assoc, length, length-append,
  length-map, length-take, take, take_of_length-le, ltb, leb, if◌then◌else◌, Bool-cases, arith,
}
use mqttview.Tree.{TreeNode}
use mqttview.Tree.Reads.{
  GraphNode, Drawing, graph_node, draw_child, draw_children, loudest_first, draw_level,
}

-- The children of the nodes of a level, those of each node together and the loudest first.
abbrev pub all_children : List TreeNode → List TreeNode
all_children [] = []
all_children (n ∷ ns) = loudest_first n ++ all_children ns

-- What is drawn stays within the budget, and is truncated exactly when it has used it up.
pub record IsDrawing (max_nodes : ℕ) (d : Drawing) : Type 0 where
  pub within : length d.out ≤ max_nodes
  pub told : d.truncated ≡ leb max_nodes (length d.out)

module _ (max_depth max_nodes depth : ℕ) where
  abbrev deeper : List TreeNode → List TreeNode
  deeper ns = if ltb depth max_depth then ns else []

  abbrev shown_all : List TreeNode → List GraphNode
  shown_all ns = map (graph_node max_depth depth) ns

  deeper-append : (ns ms : List TreeNode) → deeper (ns ++ ms) ≡ deeper ns ++ deeper ms
  deeper-append ns ms = ground arith

  children_out :
      (ns : List TreeNode) (d : Drawing)
      → length d.out ≤ max_nodes
      → (draw_children max_depth max_nodes depth ns d).out ≡ take max_nodes (d.out ++ shown_all ns)
  unfolding draw_children draw_child
  children_out [] d h =
      sym (ap (take max_nodes) (append-nil d.out) ∙ take_of_length-le max_nodes d.out h)
  children_out (n ∷ ns) d h = elim (Bool-cases (leb max_nodes (length d.out))) [
    | inl y ↦ rw y (sym (take_all max_nodes d.out (shown_all (n ∷ ns)) (ground arith)))
    | inr y ↦
        let len = length-append d.out (graph_node max_depth depth n ∷ []) in
        rw y (
          children_out ns (draw_child max_depth max_nodes depth n d) (ground (arith, len))
          ∙ ap (take max_nodes)
              (append_assoc d.out (graph_node max_depth depth n ∷ []) (shown_all ns)))
  ]

  children_told :
      (ns : List TreeNode) (d : Drawing)
      → length d.out ≤ max_nodes
      → (draw_children max_depth max_nodes depth ns d).truncated
        ≡ (d.truncated || ltb max_nodes (length d.out + length ns))
  unfolding draw_children draw_child
  children_told [] d h = ground arith
  children_told (n ∷ ns) d h = elim (Bool-cases (leb max_nodes (length d.out))) [
    | inl y ↦ rw y (ground arith)
    | inr y ↦
        let len = length-append d.out (graph_node max_depth depth n ∷ []) in
        let ih =
          children_told ns (draw_child max_depth max_nodes depth n d) (ground (arith, len)) in
        let same : length (d.out ++ graph_node max_depth depth n ∷ []) + length ns
            ≡ length d.out + suc (length ns) =
          omega arith in
        rw y (ih ∙ ap (λ (k : ℕ). d.truncated || ltb max_nodes k) same)
  ]

  children_next :
      (ns : List TreeNode) (d : Drawing)
      → length d.out + length ns < max_nodes
      → (draw_children max_depth max_nodes depth ns d).next ≡ d.next ++ deeper ns
  unfolding draw_children draw_child
  children_next [] d h = ground (arith, append-nil d.next)
  children_next (n ∷ ns) d h =
      let len = length-append d.out (graph_node max_depth depth n ∷ []) in
      let small : leb max_nodes (length d.out) ≡ false = ground arith in
      let ih = children_next ns (draw_child max_depth max_nodes depth n d) (omega arith) in
      rw small (ih ∙ ground (arith, append_assoc d.next (n ∷ []) ns, append-nil d.next))

  -- What drawing some nodes makes of `d`: their list is cut at the budget, and where that is not
  -- used up the nodes are the next level's.
  pub record Drawn (d : Drawing) (nodes : List GraphNode) (below : List TreeNode) (d' : Drawing)
      : Type 0 where
    pub out : d'.out ≡ take max_nodes (d.out ++ nodes)
    pub told : d'.truncated ≡ leb max_nodes (length (d.out ++ nodes))
    pub next : length d.out + length nodes < max_nodes → d'.next ≡ d.next ++ below

  regroup :
      (out : List GraphNode) (cs ns : List TreeNode)
      → out ++ shown_all (cs ++ ns) ≡ (out ++ shown_all cs) ++ shown_all ns
  regroup out cs ns =
      ap (λ l. out ++ l) (map-append (graph_node max_depth depth) cs ns)
      ∙ sym (append_assoc out (shown_all cs) (shown_all ns))

  -- A parent whose children use the budget up ends the level.
  last_parent :
      (cs ns : List TreeNode) (d d1 : Drawing)
      → d1.out ≡ take max_nodes (d.out ++ shown_all cs)
      → leb max_nodes (length d1.out) ≡ true
      → Drawn d (shown_all (cs ++ ns)) (deeper (cs ++ ns)) (record d1 { truncated = true })
  last_parent cs ns d d1 drawn y =
      let all = d.out ++ shown_all cs in
      let taken = ap (λ (l : List GraphNode). length l) drawn ∙ length-take max_nodes all in
      let enough : max_nodes ≤ length all = ground (arith, taken) in
      let sum = length-append all (shown_all ns) in
      let whole = ap (λ (l : List GraphNode). length l) (regroup d.out cs ns) in
      let parts = length-append d.out (shown_all (cs ++ ns)) in
      record {
        out =
            drawn
            ∙ sym (take-append_enough max_nodes all (shown_all ns) enough)
            ∙ ap (take max_nodes) (sym (regroup d.out cs ns));
        told = ground (arith, enough, sum, whole);
        next = λ room. absurd (omega arith);
      }

  -- Otherwise the level goes on from what the children left.
  next_parent :
      (cs ns : List TreeNode) (d d1 d' : Drawing)
      → d1.out ≡ d.out ++ shown_all cs
      → (length d.out + length cs < max_nodes → d1.next ≡ d.next ++ deeper cs)
      → Drawn d1 (shown_all ns) (deeper ns) d'
      → Drawn d (shown_all (cs ++ ns)) (deeper (cs ++ ns)) d'
  next_parent cs ns d d1 d' drawn below h =
      let lc = length-map (graph_node max_depth depth) cs in
      let parts =
        ap (λ (l : List GraphNode). length l) (map-append (graph_node max_depth depth) cs ns) in
      let sum = length-append (shown_all cs) (shown_all ns) in
      let l1 = ap (λ (l : List GraphNode). length l) drawn ∙ length-append d.out (shown_all cs) in
      record {
        out =
            h.out
            ∙ ap (λ l. take max_nodes (l ++ shown_all ns)) drawn
            ∙ ap (take max_nodes) (sym (regroup d.out cs ns));
        told =
            h.told
            ∙ ap (λ l. leb max_nodes (length (l ++ shown_all ns))) drawn
            ∙ ap (λ (l : List GraphNode). leb max_nodes (length l)) (sym (regroup d.out cs ns));
        next = λ room.
            h.next (omega arith)
            ∙ ap (λ l. l ++ deeper ns) (below (omega arith))
            ∙ append_assoc d.next (deeper cs) (deeper ns)
            ∙ ap (λ l. d.next ++ l) (sym (deeper-append cs ns));
      }

  pub draw_level-Drawn :
      (ps : List TreeNode) (d : Drawing)
      → IsDrawing max_nodes d
      → Drawn d
          (shown_all (all_children ps))
          (deeper (all_children ps))
          (draw_level max_depth max_nodes depth ps d)
  unfolding draw_level
  draw_level-Drawn [] d h = record {
    out = sym (ap (take max_nodes) (append-nil d.out) ∙ take_of_length-le max_nodes d.out h.within);
    told = h.told ∙ ap (λ (l : List GraphNode). leb max_nodes (length l)) (sym (append-nil d.out));
    next = λ room. sym (ap (λ l. d.next ++ l) (ground arith) ∙ append-nil d.next);
  }
  draw_level-Drawn (p ∷ ps) d h =
      let cs = loudest_first p in
      let d1 = draw_children max_depth max_nodes depth cs d in
      let drawn = children_out cs d h.within in
      let told = children_told cs d h.within in
      let before = h.told in
      let len = length-append d.out (shown_all cs) in
      let lc = length-map (graph_node max_depth depth) cs in
      let taken =
        ap (λ (l : List GraphNode). length l) drawn
        ∙ length-take max_nodes (d.out ++ shown_all cs) in
      elim (Bool-cases (leb max_nodes (length d1.out))) [
        | inl y ↦ rw y (last_parent cs (all_children ps) d d1 drawn y)
        | inr y ↦
            let whole : d1.out ≡ d.out ++ shown_all cs =
              drawn
              ∙ take_of_length-le max_nodes (d.out ++ shown_all cs) (ground (arith, y, taken)) in
            let open_ : IsDrawing max_nodes d1 = record {
              within = ground (arith, y);
              told = ground (arith, y, taken, len, lc, told, before);
            } in
            rw y (
              next_parent cs (all_children ps) d d1 _ whole (λ room. children_next cs d room)
                (draw_level-Drawn ps d1 open_))
      ]
