-- ===== src/Tests/Client.antt =====
-- Calls of the service that negates.
use zero_lan_com.Base.{
  ℕ, inl, inr, ap, sym, subst, ◌∙◌, suc, List, some, [], ◌∷◌, Bool, true, false, not, ◌≡◌, refl,
  arith,
}
use zero_lan_com.Base.Text.{Str, bytes, str_eq}
use zero_lan_com.Base.Map.{find, insert}
use zero_lan_com.Base.Map.Unique.{Has, Has-of_find}
use zero_lan_com.Serialization.ByteBuffer.{writes, write, copy_in, realloc}
use zero_lan_com.Serialization.Codec.{encode, decode}
use zero_lan_com.Serialization.ServiceHeader.{decode_service_header}
use zero_lan_com.Base.Result.{ok}
use zero_lan_com.Utils.Socket.{frame}
use zero_lan_com.Sockets.ServiceManager.{Callback, success, handle_request, register_handler, wrap}
use zero_lan_com.Sockets.Client.{zlc_request, send_request}
use zero_lan_com.Base.Int.{pos, to_u32}
use zero_lan_com.Nodes.NodeInfo.{NodeInfo, SocketInfo}
use zero_lan_com.Nodes.NodeInfoManager.{
  NodeInfoManager, init, mark_heartbeat, store_fetched, update_node, register_local_service,
}
use zero_lan_com.Nodes.NodeInfoManager.Sections.{Section, mark, store, run_sections, run_section}
use zero_lan_com.Nodes.NodeInfoManager.Consistency.{reachable-IsConsistent}
use zero_lan_com.Api.{to_u16, register_service_handler}
use zero_lan_com.Api.Called.{IsOnly, zlc_request-served}
use zero_lan_com.Tests.Data.{uuid_a, uuid_b, ip_a, ip_b, echo, info_a, node_a, fresh_b, heartbeat_a}
use zero_lan_com.Tests.Wire.{
  Tape, tape, generous, generous-GrantsAll, bool_codec, bool_codec-IsRoundTrip, bool_codec-IsSmall,
}

abbrev negate : Callback ℕ Bool Bool
negate b n = (ok (not b), suc n)

abbrev url : Str
url = bytes "tcp://10.0.0.1:4200"

abbrev name : Str
name = bytes "negate"

-- The frames of a request for `true`.
abbrev asked : List (List ℕ × Bool)
asked = (name, true) ∷ (0xC3 ∷ [], false) ∷ []

abbrev served_by : List ℕ → List ℕ → Str → Tape
served_by code payload u = (frame code true ∷ frame payload false ∷ [], [])

-- The second node has the info of the first one with the service.
abbrev info_offering : NodeInfo
info_offering = record info_a {
  info_id = 3;
  services = echo ∷ record { name = name; ip = ip_a; port = 4200 } ∷ [];
}

abbrev hearing : List Section
hearing = mark heartbeat_a 1_000_000_000 ∷ store heartbeat_a (some info_offering) 1_000_000_000 ∷ []

abbrev informed_b : NodeInfoManager
informed_b = run_sections hearing fresh_b

informed_b-nodes_info : informed_b.nodes_info ≡ (uuid_a, info_offering) ∷ []
unfolding run_sections run_section mark_heartbeat store_fetched update_node insert find str_eq init
informed_b-nodes_info = refl

negate_socket : SocketInfo
negate_socket = record { name = name; ip = ip_a; port = to_u16 (pos 4200) }

only_negate : (t : SocketInfo) → t.name ≡ name → Has t info_offering.services → t ≡ negate_socket
unfolding to_u16 to_u32 negate_socket
only_negate t e (inl same) =
    let other : echo.name ≡ name = ap (λ (s : SocketInfo). s.name) (sym same) ∙ e in absurd cc
only_negate t e (inr (inl same)) = same
only_negate t e (inr (inr none_left)) = absurd none_left

known_info :
    (k : Str) (node : NodeInfo)
    → Has {A = Str × NodeInfo} (k, node) ((uuid_a, info_offering) ∷ [])
    → node ≡ info_offering
known_info k node (inl same) = ap (λ (p : Str × NodeInfo). p.1) same
known_info k node (inr none_left) = absurd none_left

informed_b-IsOnly : IsOnly negate_socket informed_b
unfolding negate_socket init run_sections run_section mark_heartbeat store_fetched update_node
    insert find str_eq to_u16 to_u32
informed_b-IsOnly t e (inl (k, node, known, has)) = only_negate t e (
    subst (λ (i : NodeInfo). Has t i.services)
      (known_info k node (Has-of_find k node informed_b.nodes_info known)) has)
informed_b-IsOnly t e (inr own) = absurd own

zlc_request-served_example :
    zlc_request tape generous bool_codec bool_codec
      (served_by success (0xC2 ∷ []))
      informed_b
      name
      true
      true
    ≡ ok false
unfolding send_request negate_socket register_service_handler register_local_service to_u16 to_u32
    init run_sections run_section mark_heartbeat store_fetched update_node insert find str_eq
    handle_request register_handler wrap decode encode decode_service_header writes write copy_in
    realloc
zlc_request-served_example =
    zlc_request-served tape generous bool_codec bool_codec bool_codec-IsRoundTrip
      bool_codec-IsRoundTrip generous-GrantsAll (served_by success (0xC2 ∷ [])) name negate
      (pos 4200) [] node_a informed_b (reachable-IsConsistent hearing uuid_b (bytes "b") ip_b) refl
      informed_b-IsOnly (omega arith) (ground arith) true false true 4 5 5
      (record { code = success; payload = 0xC2 ∷ [] })
      (frame success true ∷ frame (0xC2 ∷ []) false ∷ [], asked)
      (frame (0xC2 ∷ []) false ∷ [], asked) ([], asked) refl (bool_codec-IsSmall true)
      (bool_codec-IsSmall false) (λ e. cc) refl refl refl refl
