-- ===== src/Ipc/Version.antt =====
-- internal/ipc/version.go and handshake.go: cursors, and the version both sides can speak. Numbers
-- are uint16, and a cursor's sequence is uint64.
pub mod Negotiation
use awesome_sftp_cli.Base.{
  ℕ, ◌+◌, ◌-◌, ◌%◌, ◌^◌, ◌<◌, min, max, String, ◌≡◌, ◌↔◌, not, ◌&&◌, ◌||◌, Option, none, some, List,
  [], ◌∷◌, arith, ltb, ◌==◌, if◌then◌else◌, string_eq,
}

abbrev pub max_uint64 : ℕ
max_uint64 = 2 ^ 64 - 1

pub record EventCursor : Type 0 where
  pub epoch : String
  pub sequence : ℕ

pub data CursorRelation : Type 0 where
  cursor_next cursor_duplicate cursor_gap cursor_epoch_change : CursorRelation

unfoldable pub compare_cursor : EventCursor → EventCursor → CursorRelation
compare_cursor previous next =
    if not (string_eq.equal previous.epoch next.epoch)
    then cursor_epoch_change
    else if previous.sequence == next.sequence
    then cursor_duplicate
    else if not (previous.sequence == max_uint64)
        && next.sequence == (previous.sequence + 1) % 2 ^ 64
    then cursor_next
    else cursor_gap

-- For sequences of the machine type, a cursor is next exactly when it is the successor in the same
-- epoch, so the last sequence has no next one; it is a duplicate exactly when it is the same cursor.
pub compare_cursor_iff :
    (previous next : EventCursor)
    → previous.sequence < 2 ^ 64
    → next.sequence < 2 ^ 64
    → ((compare_cursor previous next ≡ cursor_next)
        ↔ ((previous.epoch ≡ next.epoch) × (next.sequence ≡ previous.sequence + 1)))
      × ((compare_cursor previous next ≡ cursor_duplicate)
          ↔ ((previous.epoch ≡ next.epoch) × (next.sequence ≡ previous.sequence)))
unfolding compare_cursor
compare_cursor_iff previous next h k = ground (arith, string_eq.equal_iff previous.epoch next.epoch)

pub record VersionRange : Type 0 where
  pub major : ℕ
  pub min_minor : ℕ
  pub max_minor : ℕ

pub record ProtocolVersion : Type 0 where
  pub major : ℕ
  pub minor : ℕ

-- `!found || candidate > best`, with none for `found` being false.
unfoldable pub better : Option ProtocolVersion → ProtocolVersion → Option ProtocolVersion
better none candidate = some candidate
better (some best) candidate =
    if ltb best.major candidate.major
      || candidate.major == best.major && ltb best.minor candidate.minor
    then some candidate
    else some best

-- The body of the inner loop.
unfoldable pub consider :
    VersionRange → VersionRange → Option ProtocolVersion → Option ProtocolVersion
unfolding better
consider client server best =
    let minimum = max client.min_minor server.min_minor in
    let maximum = min client.max_minor server.max_minor in
    if ltb server.max_minor server.min_minor || not (client.major == server.major)
    then best
    else if ltb maximum minimum
    then best
    else better best (record { major = client.major; minor = maximum })

unfoldable pub consider_servers :
    VersionRange → List VersionRange → Option ProtocolVersion → Option ProtocolVersion
unfolding consider
consider_servers client [] best = best
consider_servers client (server ∷ rest) best =
    consider_servers client rest (consider client server best)

unfoldable pub consider_clients :
    List VersionRange → List VersionRange → Option ProtocolVersion → Option ProtocolVersion
unfolding consider_servers
consider_clients [] servers best = best
consider_clients (client ∷ rest) servers best =
    consider_clients rest servers
      (if ltb client.max_minor client.min_minor then best else consider_servers client servers best)

unfoldable pub highest_shared_version :
    List VersionRange → List VersionRange → Option ProtocolVersion
unfolding consider_clients
highest_shared_version client server = consider_clients client server none
