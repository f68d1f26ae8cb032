-- ===== src/Nodes/Heartbeat.antt =====
-- include/zerolancom/nodes/heartbeat_message.hpp and src/nodes/heartbeat_message.cpp: the datagram
-- that announces a node.
pub mod Words
pub mod RoundTrip
pub mod Equivalence
use zero_lan_com.Base.{
  ℕ, suc, ◌+◌, List, [], ◌++◌, ◌==◌, ltb, if◌then◌else◌, length, take, drop, All, ◌≡◌, ◌<◌,
}
use zero_lan_com.Base.Text.{Str}
use zero_lan_com.Base.Int.{ℤ, pos, IsInt32, to_u32, of_u32}
use zero_lan_com.Base.Result.{Result, ok, err, runtime_error}
use Words.{put_u32, read_u32}

abbrev pub heartbeat_fixed_size : ℕ
heartbeat_fixed_size = 56

-- `std::array<int32_t, 3>`.
pub record Version : Type 0 where
  pub major : ℤ
  pub minor : ℤ
  pub patch : ℤ

-- ZLC_VERSION_MAJOR, ZLC_VERSION_MINOR and ZLC_VERSION_PATCH.
abbrev pub zlc_version_constants : Version
zlc_version_constants = record { major = pos 0; minor = pos 1; patch = pos 0 }

pub record HeartbeatMessage : Type 0 where
  pub zlc_version : Version
  pub node_id : Str
  pub info_id : ℤ
  pub service_port : ℤ
  pub group_name : Str

-- `htonl` and the four bytes of the result in memory.
abbrev put_int : ℤ → List ℕ
put_int z = put_u32 (to_u32 z)

-- `memcpy`, `ntohl` and the cast.
abbrev read_int : List ℕ → ℕ → ℤ
read_int raw offset = of_u32 (read_u32 (drop offset raw))

put_version : Version → List ℕ
put_version v = put_int v.major ++ (put_int v.minor ++ put_int v.patch)

unfoldable pub encode : HeartbeatMessage → Result (List ℕ)
unfolding put_version
encode m =
    if length m.node_id == 36
    then ok (
        put_version m.zlc_version
        ++ (m.node_id ++ (put_int m.info_id ++ (put_int m.service_port ++ m.group_name))))
    else err runtime_error

read_version : List ℕ → Version
read_version raw = record { major = read_int raw 0; minor = read_int raw 4; patch = read_int raw 8 }

-- The offsets are those that the reads before have added up to.
unfoldable pub decode : List ℕ → Result HeartbeatMessage
unfolding read_version
decode raw =
    if ltb (length raw) heartbeat_fixed_size
    then err runtime_error
    else ok (record {
      zlc_version = read_version raw;
      node_id = take 36 (drop 12 raw);
      info_id = read_int raw 48;
      service_port = read_int raw 52;
      group_name = if ltb heartbeat_fixed_size (length raw) then drop 56 raw else [];
    })

-- What the fields of a message can hold, and the one length that `encode` accepts.
pub record IsValid (m : HeartbeatMessage) : Type 0 where
  pub major : IsInt32 m.zlc_version.major
  pub minor : IsInt32 m.zlc_version.minor
  pub patch : IsInt32 m.zlc_version.patch
  pub node_id : length m.node_id ≡ 36
  pub info_id : IsInt32 m.info_id
  pub service_port : IsInt32 m.service_port

abbrev pub IsByte : ℕ → Type 0
IsByte b = b < 256
