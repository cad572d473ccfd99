-- ===== src/Tree/Graph.antt =====
-- `Graph` draws the breadth-first list of nodes, cut at the budget.
use mqttview.Common.{
  take-append_enough, take_all, ℕ, zero, suc, ◌+◌, ◌<◌, ◌≡◌, refl, sym, ap, ap₂, ◌∙◌, inl, inr,
  Bool, true, false, List, [], ◌∷◌, ◌++◌, map, append-nil, append_assoc, ℤ, pos, negsuc, or_default,
  length, length-append, length-take, take, take_of_length-le, ltb, leb, ◌==◌, if◌then◌else◌,
  Bool-cases, arith,
}
use mqttview.Tree.{Tree, TreeNode, info_of}
use mqttview.Tree.Reads.{GraphNode, Drawing, graph_node, draw_level, draw_levels, graph}
use mqttview.Tree.Level.{all_children, IsDrawing, Drawn, draw_level-Drawn}

-- The nodes below a level, breadth first, for some rounds of depth.
abbrev pub breadth : ℕ → ℕ → ℕ → List TreeNode → List GraphNode
breadth max_depth zero depth level = []
breadth max_depth (suc rounds) depth level =
    map (graph_node max_depth depth) (all_children level)
    ++ breadth max_depth rounds (depth + 1) (if ltb depth max_depth then all_children level else [])

breadth-nil : (max_depth rounds depth : ℕ) → breadth max_depth rounds depth [] ≡ []
breadth-nil max_depth zero depth = refl
breadth-nil max_depth (suc rounds) depth =
    ap (breadth max_depth rounds (depth + 1)) (ground arith)
    ∙ breadth-nil max_depth rounds (depth + 1)

-- The loop over the depths, from what is drawn and what is left to draw.
record Complete (max_nodes : ℕ) (drawn rest : List GraphNode) (d' : Drawing) : Type 0 where
  out : d'.out ≡ take max_nodes (drawn ++ rest)
  told : d'.truncated ≡ leb max_nodes (length (drawn ++ rest))

Complete-nil :
    (max_nodes : ℕ) (d : Drawing) (rest : List GraphNode)
    → IsDrawing max_nodes d
    → rest ≡ []
    → Complete max_nodes d.out rest d
Complete-nil max_nodes d rest h e =
    let same : d.out ++ rest ≡ d.out = ap (λ l. d.out ++ l) e ∙ append-nil d.out in
    record {
      out = sym (ap (take max_nodes) same ∙ take_of_length-le max_nodes d.out h.within);
      told = h.told ∙ ap (λ (l : List GraphNode). leb max_nodes (length l)) (sym same);
    }

-- One level, and then the levels below it.
level-Complete :
    (max_nodes : ℕ) (d below d' : Drawing) (nodes : List GraphNode) (cs : List TreeNode)
    (max_depth depth : ℕ) (lower : List TreeNode → List GraphNode)
    → Drawn max_depth max_nodes depth (record d { next = [] }) nodes cs below
    → Complete max_nodes below.out (lower below.next) d'
    → Complete max_nodes d.out (nodes ++ lower cs) d'
level-Complete max_nodes d below d' nodes cs max_depth depth lower h c =
    let all = d.out ++ nodes in
    let assoc = append_assoc d.out nodes (lower cs) in
    let sum = length-append all (lower cs) in
    let sum' = length-append below.out (lower below.next) in
    let whole = ap (λ (l : List GraphNode). length l) assoc in
    let taken = ap (λ (l : List GraphNode). length l) h.out ∙ length-take max_nodes all in
    elim (Bool-cases (leb max_nodes (length all))) [
      | inl y ↦ record {
        out =
            c.out
            ∙ take_all max_nodes below.out (lower below.next) (ground (arith, y, taken))
            ∙ h.out
            ∙ sym (take-append_enough max_nodes all (lower cs) (ground (arith, y)))
            ∙ ap (take max_nodes) assoc;
        told = c.told ∙ ground (arith, y, taken, sum, sum', whole);
      }
      | inr y ↦
          let parts = length-append d.out nodes in
          let same : below.out ≡ all =
            h.out ∙ take_of_length-le max_nodes all (ground (arith, y)) in
          let next : below.next ≡ cs = h.next (ground (arith, y, parts)) in
          let equal : below.out ++ lower below.next ≡ d.out ++ (nodes ++ lower cs) =
            ap₂ (λ l k. l ++ lower k) same next ∙ assoc in
          record {
            out = c.out ∙ ap (take max_nodes) equal;
            told = c.told ∙ ap (λ (l : List GraphNode). leb max_nodes (length l)) equal;
          }
    ]

draw_levels-Complete :
    (rounds max_depth max_nodes depth : ℕ) (d : Drawing)
    → IsDrawing max_nodes d
    → Complete max_nodes d.out
        (breadth max_depth rounds depth d.next)
        (draw_levels rounds max_depth max_nodes depth d)
unfolding draw_levels
draw_levels-Complete zero max_depth max_nodes depth d h = Complete-nil max_nodes d [] h refl
draw_levels-Complete (suc rounds) max_depth max_nodes depth d h =
    let below = draw_level max_depth max_nodes depth d.next (record d { next = [] }) in
    let open_ : IsDrawing max_nodes (record d { next = [] }) = record {
      within = h.within;
      told = h.told;
    } in
    let level = draw_level-Drawn max_depth max_nodes depth d.next (record d { next = [] }) open_ in
    let cs = all_children d.next in
    let nodes = map (graph_node max_depth depth) cs in
    let taken =
      ap (λ (l : List GraphNode). length l) level.out ∙ length-take max_nodes (d.out ++ nodes) in
    let told = level.told in
    let fits : IsDrawing max_nodes below = record {
      within = omega arith;
      told = ground (arith, taken, told);
    } in
    elim (Bool-cases (length d.next == 0)) [
      | inl y ↦ rw y (
          Complete-nil max_nodes d (breadth max_depth (suc rounds) depth d.next) h (
            ap (breadth max_depth (suc rounds) depth) (no_nodes d.next y)
            ∙ breadth-nil max_depth (suc rounds) depth))
      | inr y ↦ rw y (
          level-Complete max_nodes d below _ nodes (if ltb depth max_depth then cs else [])
            max_depth depth (breadth max_depth rounds (depth + 1)) level
            (draw_levels-Complete rounds max_depth max_nodes (depth + 1) below fits))
    ]
  where
    no_nodes : (l : List TreeNode) → (length l == 0) ≡ true → l ≡ []
    no_nodes [] y = refl
    no_nodes (n ∷ l) y = absurd (ground (arith, y))

or_default_pos : (d : ℕ) (n : ℤ) → 0 < d → 0 < or_default d n
or_default_pos d (pos zero) h = h
or_default_pos d (pos (suc n)) h = omega arith
or_default_pos d (negsuc n) h = h

-- The whole of `Graph`, from the list that it cuts.
pub graph_lem :
    (depth_limit node_limit : ℤ) (t : Tree)
    → graph depth_limit node_limit t ≡ (
      take
          (or_default 500 node_limit)
          (breadth (or_default 3 depth_limit) (or_default 3 depth_limit) 1 (t.root ∷ [])),
      (info_of t.root).sub_updated_at,
      leb
          (or_default 500 node_limit)
          (length (breadth (or_default 3 depth_limit) (or_default 3 depth_limit) 1 (t.root ∷ []))),
    )
unfolding graph
graph_lem depth_limit node_limit t =
    let max_depth = or_default 3 depth_limit in
    let max_nodes = or_default 500 node_limit in
    let some_room = or_default_pos 500 node_limit (omega arith) in
    let start : Drawing = record { out = []; next = t.root ∷ []; truncated = false } in
    let c =
      draw_levels-Complete max_depth max_depth max_nodes 1 start
        (record { within = omega arith; told = ground (arith, some_room) }) in
    ap₂ (λ (l : List GraphNode) (b : Bool). (l, (info_of t.root).sub_updated_at, b)) c.out c.told
