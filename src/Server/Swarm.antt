-- ===== src/Server/Swarm.antt =====
-- parseSwarmNodes of server/utils.go: the nodes of a Swarm, out of the lines of its info.
pub mod Listing
use interlock_old.Prelude.{String, Bool, List, [], ◌∷◌, ◌++◌, ◌==◌, if◌then◌else◌}
use interlock_old.Go.Text.{contains, split}

-- Node of server/swarm.go
pub record Node : Type 0 where
  pub id : String  -- left empty
  pub name : String
  pub addr : String
  pub containers : String
  pub reserved_cpus : String
  pub reserved_memory : String
  pub labels : List String

-- The variables of the loop. `labels` and `nodeComplete` are not among them: they are set where a node
-- ends and are reset in the same round.
pub record Parsing : Type 0 where
  pub nodes : List Node
  pub name : String
  pub addr : String
  pub containers : String
  pub reserved_cpus : String
  pub reserved_memory : String

abbrev pub start : Parsing
start = record {
  nodes = [];
  name = "";
  addr = "";
  containers = "";
  reserved_cpus = "";
  reserved_memory = "";
}

-- A line without the mark of a node's fields names the node that the next fields belong to.
unfoldable pub name_line : String → String → Parsing → Parsing
unfolding contains
name_line label value p = if contains label " └" then p else record p { name = label; addr = value }

unfoldable pub end_node : String → Parsing → Parsing
unfolding split
end_node value p = record start {
  nodes =
      p.nodes
      ++ (record {
        id = "";
        name = p.name;
        addr = p.addr;
        containers = p.containers;
        reserved_cpus = p.reserved_cpus;
        reserved_memory = p.reserved_memory;
        labels = split b',' value;
      }
          ∷ []);
}

unfoldable pub field_line : String → String → Parsing → Parsing
unfolding end_node
field_line label value p =
    if label == " └ Containers"
    then record p { containers = value }
    else if label == " └ Reserved CPUs"
    then record p { reserved_cpus = value }
    else if label == " └ Reserved Memory"
    then record p { reserved_memory = value }
    else if label == " └ Labels"
    then end_node value p
    else p

-- A round of the loop. A line of the cluster has a backspace in its label.
unfoldable pub parse_line : String → String → Parsing → Parsing
unfolding name_line field_line contains
parse_line label value p =
    if contains label "\u{8}" then p else field_line label value (name_line label value p)

unfoldable pub parse_lines : List (String × String) → Parsing → Parsing
unfolding parse_line
parse_lines [] p = p
parse_lines ((label, value) ∷ lines) p = parse_lines lines (parse_line label value p)

unfoldable pub parse_swarm_nodes : List (String × String) → List Node
unfolding parse_lines
parse_swarm_nodes lines = (parse_lines lines start).nodes
