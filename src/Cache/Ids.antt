-- ===== src/Cache/Ids.antt =====
-- internal/cache/ids.go: the identifiers, and the bytes that an entry's identifier is the hash of.
use Prim.Native.Char.{code}
use Prim.Native.String.{len}
use awesome_sftp_cli.Base.{ℕ, ◌*◌, String, Bool, true, ◌&&◌, ◌||◌, leb, ◌==◌, string_eq}

abbrev pub content_id_hex_length : ℕ
content_id_hex_length = 64

abbrev pub random_id_hex_length : ℕ
random_id_hex_length = 32

abbrev pub max_endpoint_id_bytes : ℕ
max_endpoint_id_bytes = 4 * 1024

abbrev pub max_canonical_path_bytes : ℕ
max_canonical_path_bytes = 1024 * 1024

abbrev pub max_canonical_fingerprint : ℕ
max_canonical_fingerprint = 64 * 1024

unfoldable pub is_lower_hex : ℕ → Bool
is_lower_hex c = leb b'0' c && leb c b'9' || leb b'a' c && leb c b'f'

unfoldable pub all_lower_hex : String → Bool
unfolding is_lower_hex
all_lower_hex String.[] = true
all_lower_hex (String.◌∷◌ c rest) = is_lower_hex (code c) && all_lower_hex rest

-- `len` counts bytes, as Go's does.
unfoldable pub is_lower_hex_id : ℕ → String → Bool
unfolding all_lower_hex
is_lower_hex_id width value = len value == width && all_lower_hex value

abbrev pub is_content_id : String → Bool
is_content_id = is_lower_hex_id content_id_hex_length

abbrev pub is_random_id : String → Bool
is_random_id = is_lower_hex_id random_id_hex_length
