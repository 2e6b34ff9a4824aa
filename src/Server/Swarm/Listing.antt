-- ===== src/Server/Swarm/Listing.antt =====
-- The nodes that an info lists are the nodes that are read.
use interlock_old.Prelude.{
  ◌≡◌, refl, sym, String, true, false, List, [], ◌∷◌, ◌++◌, map, All, append_assoc, append-nil,
  ◌==◌, eq_iff, ◌⊎◌, inl, inr, Bool-cases,
}
use interlock_old.Go.Text.{contains, split}
use interlock_old.Server.Swarm.{
  Node, Parsing, start, name_line, end_node, field_line, parse_line, parse_lines, parse_swarm_nodes,
}

-- A node as the info lists it; its labels are one text.
pub record Entry : Type 0 where
  pub name : String
  pub addr : String
  pub containers : String
  pub reserved_cpus : String
  pub reserved_memory : String
  pub labels : String

abbrev pub lines_of : Entry → List (String × String)
lines_of e =
    (e.name, e.addr)
    ∷ (" └ Containers", e.containers)
    ∷ (" └ Reserved CPUs", e.reserved_cpus)
    ∷ (" └ Reserved Memory", e.reserved_memory)
    ∷ (" └ Labels", e.labels)
    ∷ []

abbrev pub listing : List Entry → List (String × String)
listing [] = []
listing (e ∷ es) = lines_of e ++ listing es

abbrev pub node_of : Entry → Node
node_of e = record {
  id = "";
  name = e.name;
  addr = e.addr;
  containers = e.containers;
  reserved_cpus = e.reserved_cpus;
  reserved_memory = e.reserved_memory;
  labels = split b',' e.labels;
}

-- The label of a line is that of no field.
pub record IsName (label : String) : Type 0 where
  pub no_field : contains label " └" ≡ false
  pub no_cluster : contains label "\u{8}" ≡ false

other_name :
    (label field : String)
    → contains label " └" ≡ false
    → contains field " └" ≡ true
    → (label == field) ≡ false
other_name label field h k = elim (Bool-cases (label == field)) [
  | inr other ↦ other
  | inl same ↦ cc (h, k, (eq_iff label field).0 same)
]

parse_name :
    (label value : String) (p : Parsing)
    → IsName label
    → parse_line label value p ≡ record p { name = label; addr = value }
unfolding parse_line name_line field_line contains
parse_name label value p h =
    rw
      (
        h.no_cluster,
        h.no_field,
        other_name label " └ Containers" h.no_field refl,
        other_name label " └ Reserved CPUs" h.no_field refl,
        other_name label " └ Reserved Memory" h.no_field refl,
        other_name label " └ Labels" h.no_field refl,
        parse_line,
        name_line,
        field_line,
      )
      refl

-- From the start of a node on, nothing of the lines before is left but the nodes.
parse_entry :
    (e : Entry) (lines : List (String × String)) (p : Parsing)
    → IsName e.name
    → parse_lines (lines_of e ++ lines) p
      ≡ parse_lines lines (record start { nodes = p.nodes ++ (node_of e ∷ []) })
unfolding parse_lines parse_line name_line field_line end_node contains
parse_entry e lines p h = rw (parse_name e.name e.addr p h) refl

nodes-listing :
    (es : List Entry) (p : Parsing)
    → All (λ e. IsName e.name) es
    → (parse_lines (listing es) p).nodes ≡ p.nodes ++ map node_of es
unfolding parse_lines
nodes-listing [] p h = sym (append-nil p.nodes)
nodes-listing (e ∷ es) p h = rw (parse_entry e (listing es) p h.0) (
    rw (nodes-listing es (record start { nodes = p.nodes ++ (node_of e ∷ []) }) h.1)
      (append_assoc p.nodes (node_of e ∷ []) (map node_of es)))

-- A line of the cluster, or a line that could name a node.
abbrev pub IsHeader : String × String → Type 0
IsHeader line = (contains line.0 "\u{8}" ≡ true) ⊎ IsName line.0

parse_headers :
    (headers lines : List (String × String)) (p : Parsing)
    → All IsHeader headers
    → (q : Parsing) × (parse_lines (headers ++ lines) p ≡ parse_lines lines q) × (q.nodes ≡ p.nodes)
unfolding parse_lines parse_line
parse_headers [] lines p h = (p, refl, refl)
parse_headers ((label, value) ∷ headers) lines p (inl cluster, h) =
    let (q, parsed, same) = parse_headers headers lines p h in
    (q, rw (cluster, parse_lines, parse_line) parsed, same)
parse_headers ((label, value) ∷ headers) lines p (inr named, h) =
    let (q, parsed, same) =
      parse_headers headers lines (record p { name = label; addr = value }) h in
    (q, rw (parse_name label value p named, parse_lines) parsed, same)

-- The nodes that are read from an info are those that it lists, in order and each with its own fields,
-- where the lines before the list are no fields and each node's name is like no field.
pub parse_swarm_nodes-listing :
    (headers : List (String × String)) (es : List Entry)
    → All IsHeader headers
    → All (λ e. IsName e.name) es
    → parse_swarm_nodes (headers ++ listing es) ≡ map node_of es
unfolding parse_swarm_nodes
parse_swarm_nodes-listing headers es h k =
    let (q, parsed, same) = parse_headers headers (listing es) start h in
    rw (parsed, parse_swarm_nodes) (rw (nodes-listing es q k, same) refl)
