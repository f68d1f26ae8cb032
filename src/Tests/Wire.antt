-- ===== src/Tests/Wire.antt =====
-- A codec of one byte, a heap that grants all, and a socket that plays frames from a tape.
use zero_lan_com.Base.{
  ℕ, List, [], ◌∷◌, ◌++◌, Option, none, some, Bool, true, false, ◌==◌, if◌then◌else◌, refl, arith,
}
use zero_lan_com.Serialization.ByteBuffer.{Heap}
use zero_lan_com.Serialization.Codec.{Msgpack, IsRoundTrip}
use zero_lan_com.Utils.Socket.{SocketOps, Received, recv_failed, Sent, sent}
use zero_lan_com.Sockets.ServiceManager.Replies.{GrantsAll, IsSmall}

-- The bytes of msgpack for `true` and `false`.
abbrev pack_bool : Bool → List (List ℕ)
pack_bool true = (0xC3 ∷ []) ∷ []
pack_bool false = (0xC2 ∷ []) ∷ []

abbrev unpack_bool : List ℕ → Option Bool
unpack_bool [] = none
unpack_bool (b ∷ rest) = if b == 0xC3 then some true else if b == 0xC2 then some false else none

abbrev pub bool_codec : Msgpack Bool
bool_codec = record { pack = pack_bool; unpack = unpack_bool }

pub bool_codec-IsRoundTrip : IsRoundTrip bool_codec
bool_codec-IsRoundTrip true = refl
bool_codec-IsRoundTrip false = refl

pub bool_codec-IsSmall : IsSmall bool_codec
bool_codec-IsSmall true = omega arith
bool_codec-IsSmall false = omega arith

abbrev pub generous : Heap
generous = record { grants = λ n. true; junk = 0xAA }

pub generous-GrantsAll : GrantsAll generous
generous-GrantsAll n = refl

-- What is still to be received, and the frames that were sent.
abbrev pub Tape : Type 0
Tape = List Received × List (List ℕ × Bool)

-- At the end of the tape the socket is in the wrong state (EFSM).
abbrev play : Tape → Received × Tape
play ([], out) = (recv_failed 156_384_763, ([], out))
play (r ∷ rs, out) = (r, (rs, out))

abbrev record_frame : List ℕ → Bool → Tape → Sent × Tape
record_frame bytes more (inbox, out) = (sent, (inbox, out ++ (bytes, more) ∷ []))

abbrev pub tape : SocketOps Tape
tape = record { recv = play; send = record_frame }
