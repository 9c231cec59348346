-- ===== src/Packet/Tests.antt =====
-- The client protocol on a concrete message.
use xbase.Prelude.{
  ℕ, ◌+◌, ◌≡◌, Option, none, some, List, [], ◌∷◌, ◌++◌, ok, err, arith, length, take, drop, leb,
  if◌then◌else◌, io_eof, invalid_message,
}
use xbase.Bytes.{big_endian, little_endian}
use xbase.Buffer.Writer.{Writer}
use xbase.Buffer.Pool.{IsPool}
use xbase.Buffer.Nocopy.{NocopyBuffer, buffer_bytes}
use xbase.Packet.{Options, Message, pack_message, pack_buffer, unpack_message, read_message}
use xbase.Packet.RoundTrip.{IsWord32, message_round_trip, packed_but_refused}
use xbase.Packet.Framing.{misframed}

abbrev no_pool : ℕ → Option Writer
no_pool i = none

no_pool-IsPool : IsPool no_pool
no_pool-IsPool i w e = absurd (ground (arith, e))

abbrev default_options : Options
default_options = record { byte_order = big_endian; buffer_bytes = 5000 }

abbrev tight_options : Options
tight_options = record { byte_order = little_endian; buffer_bytes = 3 }

abbrev hello : Message
hello = record { seq = 1; game_id = 2; message_id = 3; buffer = 104 ∷ 105 ∷ [] }

hello-IsWord32 : IsWord32 hello
hello-IsWord32 = record { game_id = omega arith; message_id = omega arith; seq = omega arith }

abbrev one_byte : List ℕ
one_byte = 9 ∷ []

message_round_trip_example :
    (frame : List ℕ) × (pack_message default_options hello ≡ ok frame)
    × (read_message default_options (frame ++ (9 ∷ [])) ≡ ok (some frame, 9 ∷ []))
    × (unpack_message default_options frame ≡ ok (some (hello, 20 + length hello.buffer)))
    × (length frame ≡ 24 + length hello.buffer)
message_round_trip_example =
    message_round_trip default_options hello (9 ∷ []) hello-IsWord32 (omega arith) (omega arith)

packed_but_refused_example :
    (frame : List ℕ) × (pack_message tight_options hello ≡ ok frame)
    × (unpack_message tight_options frame ≡ err invalid_message)
packed_but_refused_example =
    packed_but_refused tight_options hello hello-IsWord32 (omega arith) (omega arith) (omega arith)

misframed_example :
    (b : NocopyBuffer) × (pack_buffer no_pool default_options hello ≡ ok b)
    × (read_message default_options (buffer_bytes b ++ one_byte) ≡ (
        if leb 4 (length one_byte)
        then ok (some (buffer_bytes b ++ take 4 one_byte), drop 4 one_byte)
        else err io_eof))
misframed_example =
    misframed no_pool default_options hello one_byte no_pool-IsPool (omega arith) (omega arith)
