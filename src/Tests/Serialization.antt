-- ===== src/Tests/Serialization.antt =====
-- Buffers that grow and that cannot.
use zero_lan_com.Base.{[], ◌∷◌, true, false, refl, arith}
use zero_lan_com.Serialization.ByteBuffer.{ByteBuffer, Heap, IsValid, write}
use zero_lan_com.Serialization.ByteBuffer.Write.{Appended, write-Appended}
use zero_lan_com.Serialization.Codec.{Encoded, encode, encode-Encoded}
use zero_lan_com.Tests.Wire.{generous, bool_codec, bool_codec-IsRoundTrip}

-- Two bytes of three are used.
abbrev small_buffer : ByteBuffer
small_buffer = record { block = 1 ∷ 2 ∷ 0xEE ∷ []; size = 2; capacity = 3 }

small_buffer-IsValid : IsValid small_buffer
small_buffer-IsValid = record { block = refl; size = omega arith }

abbrev stingy : Heap
stingy = record { grants = λ n. false; junk = 0xAA }

write-Appended_example :
    Appended generous small_buffer (3 ∷ 4 ∷ 5 ∷ []) (write generous small_buffer (3 ∷ 4 ∷ 5 ∷ []))
write-Appended_example =
    write-Appended generous small_buffer (3 ∷ 4 ∷ 5 ∷ []) small_buffer-IsValid (omega arith)
      (omega arith)

-- The buffer is used again.
encode-Encoded_example :
    Encoded bool_codec stingy true small_buffer (encode bool_codec stingy true small_buffer)
encode-Encoded_example =
    encode-Encoded bool_codec stingy true small_buffer bool_codec-IsRoundTrip small_buffer-IsValid
      (omega arith) (omega arith)
