-- ===== src/Cache/Candidates.antt =====
-- internal/cache/quota.go: what the candidates of a round are.
use awesome_sftp_cli.Base.{
  ◌≡◌, refl, inl, inr, Bool, true, List, [], ◌∷◌, Bool-cases, All, string_eq,
}
use awesome_sftp_cli.Cache.Protections.{
  ProtectionIndex, collect, enumerate_candidates, EvictionCandidate, EvictionTarget,
  is_entry_evictable, entry_eviction, is_materialization_evictable, materialization_eviction,
  is_blob_evictable, blob_eviction,
}
use awesome_sftp_cli.Cache.Evictions.{insert_candidate, sort_candidates, before_candidate}
use awesome_sftp_cli.Cache.Records.{Snapshot, Entry, Materialization, Blob}
use awesome_sftp_cli.Base.Has.{All-append, Has}

-- A target that the tests of enumerateCandidates let through, for the index `p`.
pub data Passes (p : ProtectionIndex) (s : Snapshot) (allow_shared : Bool)
    : EvictionTarget → Type 0 where
  entry_passes :
      (entry : Entry)
      → Has entry s.entries
      → is_entry_evictable p allow_shared entry ≡ true
      → Passes p s allow_shared (entry_eviction entry.id)
  materialization_passes :
      (m : Materialization)
      → Has m s.materializations
      → is_materialization_evictable p m ≡ true
      → Passes p s allow_shared (materialization_eviction m.id)
  blob_passes :
      (blob : Blob)
      → Has blob s.blobs
      → is_blob_evictable p s.materializations blob ≡ true
      → Passes p s allow_shared (blob_eviction blob.id)

abbrev pub Sound : ProtectionIndex → Snapshot → Bool → EvictionCandidate → Type 0
Sound p s allow_shared candidate = Passes p s allow_shared candidate.target

collect-All :
    {A : Type 0} (P : EvictionCandidate → Type 0) (test : A → Bool) (make : A → EvictionCandidate)
    (xs : List A)
    → ((a : A) → Has a xs → test a ≡ true → P (make a))
    → All P (collect test make xs)
unfolding collect
collect-All P test make [] h = tt
collect-All P test make (x ∷ xs) h =
    let more = collect-All P test make xs (λ a m. h a (inr m)) in
    elim (Bool-cases (test x)) [
      | inl chosen ↦ rw chosen (h x (inl refl) chosen, more)
      | inr passed ↦ rw passed more
    ]

pub enumerate-Sound :
    (s : Snapshot) (p : ProtectionIndex) (allow_shared : Bool)
    → All (Sound p s allow_shared) (enumerate_candidates s p allow_shared)
unfolding enumerate_candidates
enumerate-Sound s p allow_shared =
    All-append _ _ _ (collect-All _ _ _ s.entries (λ a m t. entry_passes a m t)) (
      All-append _ _ _
        (collect-All _ _ _ s.materializations (λ a m t. materialization_passes a m t))
        (collect-All _ _ _ s.blobs (λ a m t. blob_passes a m t)))

insert-All :
    (P : EvictionCandidate → Type 0) (c : EvictionCandidate) (cs : List EvictionCandidate)
    → P c
    → All P cs
    → All P (insert_candidate c cs)
unfolding insert_candidate
insert-All P c [] h k = (h, tt)
insert-All P c (d ∷ cs) h k = elim (Bool-cases (before_candidate d c)) [
  | inl later ↦ rw later (k.0, insert-All P c cs h k.1)
  | inr here ↦ rw here (h, k)
]

pub sort-All :
    (P : EvictionCandidate → Type 0) (cs : List EvictionCandidate)
    → All P cs
    → All P (sort_candidates cs)
unfolding sort_candidates
sort-All P [] h = tt
sort-All P (c ∷ cs) h = insert-All P c (sort_candidates cs) h.0 (sort-All P cs h.1)
