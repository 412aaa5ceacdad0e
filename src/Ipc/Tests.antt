-- ===== src/Ipc/Tests.antt =====
-- internal/ipc: the theorems at concrete inputs.
use awesome_sftp_cli.Ipc.Stream.{StreamError, end_of_file, drop, write_all}
use awesome_sftp_cli.Ipc.Frame.{read_frame, write_frame, put_uint32}
use awesome_sftp_cli.Ipc.RoundTrip.{HandsOver, TakesUp, read_frame-write_frame}
use awesome_sftp_cli.Base.{
  ℕ, zero, suc, ◌+◌, ◌≡◌, refl, ◌↔◌, Option, none, some, List, [], ◌∷◌, ◌++◌, arith, ok, string_eq,
}
use awesome_sftp_cli.Ipc.Version.{
  EventCursor, VersionRange, compare_cursor, highest_shared_version, cursor_next, cursor_duplicate,
  compare_cursor_iff,
}
use awesome_sftp_cli.Ipc.Version.Negotiation.{IsHighest, highest_shared_version_lem}

abbrev cursor : ℕ → EventCursor
cursor n = record { epoch = "a"; sequence = n }

compare_cursor_iff_example :
    ((compare_cursor (cursor 4) (cursor 5) ≡ cursor_next)
      ↔ (((cursor 4).epoch ≡ (cursor 5).epoch) × ((cursor 5).sequence ≡ (cursor 4).sequence + 1)))
    × ((compare_cursor (cursor 4) (cursor 5) ≡ cursor_duplicate)
        ↔ (((cursor 4).epoch ≡ (cursor 5).epoch) × ((cursor 5).sequence ≡ (cursor 4).sequence)))
compare_cursor_iff_example = compare_cursor_iff (cursor 4) (cursor 5) (omega arith) (omega arith)

abbrev range : ℕ → ℕ → ℕ → VersionRange
range major low high = record { major = major; min_minor = low; max_minor = high }

abbrev client_ranges : List VersionRange
client_ranges = range 1 0 3 ∷ range 2 5 4 ∷ []

abbrev server_ranges : List VersionRange
server_ranges = range 2 0 9 ∷ range 1 2 8 ∷ []

highest_shared_version_lem_example :
    IsHighest client_ranges server_ranges (highest_shared_version client_ranges server_ranges)
highest_shared_version_lem_example = highest_shared_version_lem client_ranges server_ranges

shared_found :
    highest_shared_version client_ranges server_ranges ≡ some (record { major = 1; minor = 3 })
unfolding highest_shared_version
shared_found = refl

-- A connection that moves one byte with each call.
abbrev pipe_read : List ℕ → ℕ → List ℕ × List ℕ × Option StreamError
pipe_read s zero = (s, [], none)
pipe_read [] (suc room) = ([], [], some end_of_file)
pipe_read (x ∷ s) (suc room) = (s, x ∷ [], none)

abbrev pipe_write : List ℕ → List ℕ → List ℕ × ℕ × Option StreamError
pipe_write s [] = (s, 0, none)
pipe_write s (x ∷ value) = (s ++ (x ∷ []), 1, none)

pipe_read-HandsOver : HandsOver pipe_read (λ s. s)
pipe_read-HandsOver s zero some_bytes room = absurd (omega arith)
pipe_read-HandsOver [] (suc n) some_bytes room = absurd (omega arith)
pipe_read-HandsOver (x ∷ s) (suc n) some_bytes room = (refl, omega arith, omega arith, refl)

pipe_write-TakesUp : TakesUp pipe_write (λ s. s)
unfolding drop
pipe_write-TakesUp s [] some_bytes = absurd (omega arith)
pipe_write-TakesUp s (x ∷ value) some_bytes = (x ∷ [], refl, refl, omega arith, omega arith, refl)

abbrev three_bytes : List ℕ
three_bytes = 7 ∷ 8 ∷ 9 ∷ []

read_frame-write_frame_example :
    ((write_frame pipe_write 5 three_bytes []).1 ≡ ok tt)
    × ((read_frame pipe_read 5 ((write_frame pipe_write 5 three_bytes []).0 ++ (1 ∷ []))).1
        ≡ ok three_bytes)
    × ((read_frame pipe_read 5 ((write_frame pipe_write 5 three_bytes []).0 ++ (1 ∷ []))).0
        ≡ 1 ∷ [])
read_frame-write_frame_example =
    read_frame-write_frame pipe_write (λ s. s) pipe_read (λ s. s) 5 three_bytes (1 ∷ []) []
      ((write_frame pipe_write 5 three_bytes []).0 ++ (1 ∷ [])) pipe_write-TakesUp
      pipe_read-HandsOver (omega arith) (omega arith) (omega arith) refl refl

written_frame : (write_frame pipe_write 5 three_bytes []).0 ≡ 0 ∷ 0 ∷ 0 ∷ 3 ∷ 7 ∷ 8 ∷ 9 ∷ []
unfolding write_frame write_all put_uint32
written_frame = refl
