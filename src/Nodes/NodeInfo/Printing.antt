-- ===== src/Nodes/NodeInfo/Printing.antt =====
-- `printNodeInfo` of src/nodes/node_info.cpp.
use zero_lan_com.Base.{List, [], ◌∷◌, ◌++◌, map, ◌≡◌, refl, ap, sym, ◌∙◌}
use zero_lan_com.Base.Text.{Str, bytes}
use zero_lan_com.Base.Decimal.{to_string_u}
use zero_lan_com.Nodes.NodeInfo.{SocketInfo, NodeInfo}
use zero_lan_com.Utils.Logger.{info, Logger, write}

socket_line : SocketInfo → Str
socket_line t = bytes "  - " ++ (t.name ++ (bytes ":" ++ to_string_u t.port))

print_sockets : List SocketInfo → Logger → Logger
unfolding socket_line
print_sockets [] l = l
print_sockets (t ∷ ts) l = print_sockets ts (write info (socket_line t) l)

unfoldable pub print_node_info : NodeInfo → Logger → Logger
unfolding print_sockets
print_node_info node l =
    let l1 = write info (bytes "-------------------------------------------------------------") l in
    let l2 = write info (bytes "NodeID: " ++ node.node_id) l1 in
    let l3 = write info (bytes "InfoID: " ++ to_string_u node.info_id) l2 in
    let l4 = write info (bytes "Name: " ++ node.name) l3 in
    let l5 = write info (bytes "IP: " ++ node.ip) l4 in
    let l6 = print_sockets node.topics (write info (bytes "Topics:") l5) in
    print_sockets node.services (write info (bytes "Services:") l6)

-- The lines of a node.
node_lines : NodeInfo → List Str
unfolding socket_line
node_lines node =
    (bytes "-------------------------------------------------------------"
      ∷ (bytes "NodeID: " ++ node.node_id)
      ∷ (bytes "InfoID: " ++ to_string_u node.info_id)
      ∷ (bytes "Name: " ++ node.name)
      ∷ (bytes "IP: " ++ node.ip)
      ∷ bytes "Topics:"
      ∷ map socket_line node.topics)
    ++ (bytes "Services:" ∷ map socket_line node.services)

write_lines : List Str → Logger → Logger
write_lines [] l = l
write_lines (line ∷ lines) l = write_lines lines (write info line l)

write_lines-append :
    (xs ys : List Str) (l : Logger) → write_lines (xs ++ ys) l ≡ write_lines ys (write_lines xs l)
unfolding write_lines
write_lines-append [] ys l = refl
write_lines-append (x ∷ xs) ys l = write_lines-append xs ys (write info x l)

print_sockets-lines :
    (ts : List SocketInfo) (l : Logger) → print_sockets ts l ≡ write_lines (map socket_line ts) l
unfolding print_sockets write_lines socket_line
print_sockets-lines [] l = refl
print_sockets-lines (t ∷ ts) l = print_sockets-lines ts (write info (socket_line t) l)

-- A node is printed as its lines, one after another: its own, each topic and each service.
print_node_info-lines :
    (node : NodeInfo) (l : Logger) → print_node_info node l ≡ write_lines (node_lines node) l
unfolding print_node_info node_lines write_lines
print_node_info-lines node l =
    print_sockets-lines node.services _
    ∙ ap (λ m. write_lines (map socket_line node.services) (write info (bytes "Services:") m))
        (print_sockets-lines node.topics _)
    ∙ sym (
        write_lines-append (map socket_line node.topics)
          (bytes "Services:" ∷ map socket_line node.services) _)
