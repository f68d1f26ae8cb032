-- ===== src/Tests/NodeCodec.antt =====
-- Codecs for the service `get_node_info`: texts and lists have their lengths in front.
use zero_lan_com.Base.{
  ℕ, zero, suc, List, [], ◌∷◌, ◌++◌, Option, none, some, ◌==◌, if◌then◌else◌, length, take, ◌≡◌,
  refl, ap, ◌∙◌, drop, take-append, drop-append,
}
use mathlib.Core.List.{append-nil}
use zero_lan_com.Base.Text.{Str}
use zero_lan_com.Nodes.NodeInfo.{SocketInfo, NodeInfo}
use zero_lan_com.Serialization.Codec.{Msgpack, IsRoundTrip, Empty, empty}

abbrev unpack_nil : List ℕ → Option Empty
unpack_nil [] = none
unpack_nil (b ∷ rest) = if b == 0xC0 then some empty else none

abbrev pub nil_codec : Msgpack Empty
nil_codec = record { pack = λ e. (0xC0 ∷ []) ∷ []; unpack = unpack_nil }

pub nil_codec-IsRoundTrip : IsRoundTrip nil_codec
nil_codec-IsRoundTrip empty = refl

abbrev put_text : Str → List ℕ → List ℕ
put_text s rest = length s ∷ s ++ rest

abbrev put_socket : SocketInfo → List ℕ → List ℕ
put_socket t rest = put_text t.name (put_text t.ip (t.port ∷ rest))

abbrev put_each : List SocketInfo → List ℕ → List ℕ
put_each [] rest = rest
put_each (t ∷ ts) rest = put_socket t (put_each ts rest)

abbrev put_sockets : List SocketInfo → List ℕ → List ℕ
put_sockets ts rest = length ts ∷ put_each ts rest

abbrev put_info : NodeInfo → List ℕ
put_info i =
    put_text i.node_id (
      i.info_id
      ∷ put_text i.name (put_text i.ip (put_sockets i.topics (put_sockets i.services []))))

-- What is read goes, with the rest, to what reads on.
module _ {A : Type 0} where
  abbrev get_number : (ℕ → List ℕ → Option A) → List ℕ → Option A
  get_number k [] = none
  get_number k (n ∷ rest) = k n rest

  abbrev get_text : (Str → List ℕ → Option A) → List ℕ → Option A
  get_text k [] = none
  get_text k (n ∷ rest) = k (take n rest) (drop n rest)

  get_text-put :
      (k : Str → List ℕ → Option A) (s rest : List ℕ) → get_text k (put_text s rest) ≡ k s rest
  get_text-put k s rest =
      rw (take-append (length s) s rest refl, drop-append (length s) s rest refl)

  abbrev get_socket : (SocketInfo → List ℕ → Option A) → List ℕ → Option A
  get_socket k = get_text (λ name.
      get_text (λ ip. get_number (λ port. k (record { name = name; ip = ip; port = port }))))

  get_socket-put :
      (k : SocketInfo → List ℕ → Option A) (t : SocketInfo) (rest : List ℕ)
      → get_socket k (put_socket t rest) ≡ k t rest
  get_socket-put k t rest =
      get_text-put
        (λ name.
          get_text (λ ip. get_number (λ port. k (record { name = name; ip = ip; port = port }))))
        t.name (put_text t.ip (t.port ∷ rest))
      ∙ get_text-put (λ ip. get_number (λ port. k (record { name = t.name; ip = ip; port = port })))
          t.ip (t.port ∷ rest)

  abbrev get_each : ℕ → (List SocketInfo → List ℕ → Option A) → List ℕ → Option A
  get_each zero k rest = k [] rest
  get_each (suc n) k rest = get_socket (λ t. get_each n (λ ts. k (t ∷ ts))) rest

  get_each-put :
      (ts : List SocketInfo) (k : List SocketInfo → List ℕ → Option A) (rest : List ℕ)
      → get_each (length ts) k (put_each ts rest) ≡ k ts rest
  get_each-put [] k rest = refl
  get_each-put (t ∷ ts) k rest =
      get_socket-put (λ t. get_each (length ts) (λ ts. k (t ∷ ts))) t (put_each ts rest)
      ∙ get_each-put ts (λ ts. k (t ∷ ts)) rest

  abbrev get_sockets : (List SocketInfo → List ℕ → Option A) → List ℕ → Option A
  get_sockets k [] = none
  get_sockets k (n ∷ rest) = get_each n k rest

abbrev with_services :
    Str → ℕ → Str → Str → List SocketInfo → List SocketInfo → List ℕ → Option NodeInfo
with_services node_id info_id name ip topics services rest = some (record {
  node_id = node_id;
  info_id = info_id;
  name = name;
  ip = ip;
  topics = topics;
  services = services;
})

abbrev with_ip : Str → ℕ → Str → Str → List ℕ → Option NodeInfo
with_ip node_id info_id name ip =
    get_sockets (λ topics. get_sockets (with_services node_id info_id name ip topics))

abbrev with_name : Str → ℕ → Str → List ℕ → Option NodeInfo
with_name node_id info_id name = get_text (with_ip node_id info_id name)

abbrev with_node_id : Str → List ℕ → Option NodeInfo
with_node_id node_id = get_number (λ info_id. get_text (with_name node_id info_id))

abbrev get_info : List ℕ → Option NodeInfo
get_info = get_text with_node_id

abbrev pub info_codec : Msgpack NodeInfo
info_codec = record { pack = λ i. put_info i ∷ []; unpack = get_info }

get_info-put : (i : NodeInfo) → get_info (put_info i) ≡ some i
get_info-put i =
    let services = put_sockets i.services [] in
    let topics = put_sockets i.topics services in
    get_text-put with_node_id i.node_id (i.info_id ∷ put_text i.name (put_text i.ip topics))
    ∙ get_text-put (with_name i.node_id i.info_id) i.name (put_text i.ip topics)
    ∙ get_text-put (with_ip i.node_id i.info_id i.name) i.ip topics
    ∙ get_each-put i.topics (λ ts. get_sockets (with_services i.node_id i.info_id i.name i.ip ts))
        services
    ∙ get_each-put i.services (with_services i.node_id i.info_id i.name i.ip i.topics) []

pub info_codec-IsRoundTrip : IsRoundTrip info_codec
info_codec-IsRoundTrip i = ap get_info (append-nil (put_info i)) ∙ get_info-put i
