-- ===== src/Ipc/Frame.antt =====
-- internal/ipc/frame.go: the limits of a frame, ReadFrame and WriteFrame.
use awesome_sftp_cli.Ipc.Stream.{StreamError, read_full, write_all, max_empty_reads}
use awesome_sftp_cli.Base.{
  ℕ, ◌+◌, ◌-◌, ◌*◌, ◌/◌, ◌%◌, ◌^◌, ◌||◌, Option, List, [], ◌∷◌, ltb, ◌==◌, if◌then◌else◌, length,
  Result, ok, err, ◌>>◌, refuse_if, string_eq,
}

abbrev pub max_frame_bytes : ℕ
max_frame_bytes = 8 * 1024 * 1024

pub data FrameError : Type 0 where
  zero_maximum maximum_exceeds_limit zero_length payload_exceeds_limit : FrameError
  header_failed payload_failed : StreamError → FrameError

unfoldable pub validate_frame_maximum : ℕ → Result FrameError (Unit {0})
validate_frame_maximum maximum = do
  refuse_if (maximum == 0) zero_maximum
  refuse_if (ltb max_frame_bytes maximum) maximum_exceeds_limit
  ok tt

-- A uint32 in big-endian order.
unfoldable pub put_uint32 : ℕ → List ℕ
put_uint32 n = n / 2 ^ 24 % 256 ∷ n / 2 ^ 16 % 256 ∷ n / 2 ^ 8 % 256 ∷ n % 256 ∷ []

unfoldable pub uint32_of : List ℕ → ℕ
uint32_of [] = 0
uint32_of (a ∷ []) = 0
uint32_of (a ∷ b ∷ []) = 0
uint32_of (a ∷ b ∷ c ∷ []) = 0
uint32_of (a ∷ b ∷ c ∷ d ∷ rest) = a * 2 ^ 24 + b * 2 ^ 16 + c * 2 ^ 8 + d

-- Reads before readFull returns: each byte of the room may come after 99 empty reads.
abbrev pub read_fuel : ℕ → ℕ
read_fuel room = max_empty_reads * (room + 1)

unfoldable pub read_framed {ℓ} :
    {S : Type ℓ} → S × Result StreamError (List ℕ) → S × Result FrameError (List ℕ)
read_framed (s, ok payload) = (s, ok payload)
read_framed (s, err problem) = (s, err (payload_failed problem))

unfoldable pub read_payload {ℓ} :
    {S : Type ℓ}
    → (S → ℕ → S × List ℕ × Option StreamError)
    → ℕ
    → S × Result StreamError (List ℕ)
    → S × Result FrameError (List ℕ)
unfolding read_framed
read_payload read maximum (s, err problem) = (s, err (header_failed problem))
read_payload read maximum (s, ok header) =
    let n = uint32_of header in
    if n == 0
    then (s, err zero_length)
    else if ltb maximum n
    then (s, err payload_exceeds_limit)
    else read_framed (read_full read (read_fuel n) n 0 [] s)

unfoldable pub read_frame {ℓ} :
    {S : Type ℓ}
    → (S → ℕ → S × List ℕ × Option StreamError)
    → ℕ
    → S
    → S × Result FrameError (List ℕ)
unfolding read_payload
read_frame read maximum s = read_payload read maximum (read_full read (read_fuel 4) 4 0 [] s)

unfoldable pub write_framed {ℓ} :
    {S : Type ℓ} → S × Result StreamError (Unit {0}) → S × Result FrameError (Unit {0})
write_framed (s, ok done) = (s, ok tt)
write_framed (s, err problem) = (s, err (payload_failed problem))

unfoldable pub write_payload {ℓ} :
    {S : Type ℓ}
    → (S → List ℕ → S × ℕ × Option StreamError)
    → List ℕ
    → S × Result StreamError (Unit {0})
    → S × Result FrameError (Unit {0})
unfolding write_framed
write_payload write payload (s, err problem) = (s, err (header_failed problem))
write_payload write payload (s, ok done) = write_framed (write_all write (length payload) payload s)

unfoldable pub write_frame {ℓ} :
    {S : Type ℓ}
    → (S → List ℕ → S × ℕ × Option StreamError)
    → ℕ
    → List ℕ
    → S
    → S × Result FrameError (Unit {0})
unfolding write_payload
write_frame write maximum payload s =
    if length payload == 0
    then (s, err zero_length)
    else if ltb (2 ^ 32 - 1) (length payload) || ltb maximum (length payload)
    then (s, err payload_exceeds_limit)
    else write_payload write payload (write_all write 4 (put_uint32 (length payload)) s)
