-- ===== src/Storage/Transaction/Integrity.antt =====
-- What a commit means for the bytes on disk.
use file_sender_byte_spark.Prelude.{
  ℕ, ◌+◌, ◌<◌, ◌≡◌, refl, ap, inl, inr, true, Option, some, List, [], ◌++◌, length, length-append,
  arith, u64_mod, Bool-cases, Option-cases, ltb, sub64, ◌==◌, ◌!=◌, not, ◌||◌, ◌∙◌,
}
use file_sender_byte_spark.Storage.Types.{
  PlatformError, platform_ok, PlatformWriteResult, PlatformCommitDisposition, PlatformBackend,
  ValidatedReceivePath, StreamingIntegrityVerifier, TransactionState, TransactionError,
}
use file_sender_byte_spark.Storage.Budget.{try_reserve}
use file_sender_byte_spark.Storage.Cleanup.{
  Sys, release_reservation, finish_cleanup, fail_and_cleanup,
}
use file_sender_byte_spark.Storage.Transaction.{
  begin_created, begin_reserved, begin_budgeted, begin, write_verified, write_data, write,
  commit_finished, commit_sealed, seal_verifier, seal_and_commit,
}
use file_sender_byte_spark.Storage.Transaction.Lifecycle.{IsReceiving, IsValid}

-- What `PlatformBackend` documents, in terms of what a temporary file holds and what stands at a
-- destination: a created file is empty, a full write appends, a flush keeps the content, a commit
-- that answers `committed` puts the content at the destination.
pub record BackendContract (platform : PlatformBackend) : Type 0 where
  pub content : platform.World → ℕ → List ℕ
  pub published : platform.World → ValidatedReceivePath → Option (List ℕ)
  pub create_empty :
      (w : platform.World) (path : ValidatedReceivePath) (size : ℕ)
      → content (platform.create_temporary w path size).0 (platform.create_temporary w path size).2
        ≡ []
  pub write_appends :
      (w : platform.World) (h : ℕ) (bytes : List ℕ)
      → (platform.write_temporary w h bytes).1.bytes_written ≡ length bytes
      → content (platform.write_temporary w h bytes).0 h ≡ content w h ++ bytes
  pub flush_keeps :
      (w : platform.World) (h : ℕ) → content (platform.flush_temporary w h).0 h ≡ content w h
  pub commit_publishes :
      (w : platform.World) (h : ℕ) (path : ValidatedReceivePath)
      → (platform.commit_temporary w h path).1.disposition ≡ PlatformCommitDisposition.committed
      → published (platform.commit_temporary w h path).0 path ≡ some (content w h)

-- The verifier `d` has been shown `seen`, in one or more pieces, and agreed to each.
pub data Fed (integrity : StreamingIntegrityVerifier) (start : integrity.Digest)
    : integrity.Digest → List ℕ → Type 0 where
  begun : Fed integrity start start []
  fed :
      {d d' : integrity.Digest} {seen seen' : List ℕ} (bytes : List ℕ)
      → Fed integrity start d seen
      → (integrity.update d bytes).0 ≡ d'
      → (integrity.update d bytes).1 ≡ true
      → seen' ≡ seen ++ bytes
      → Fed integrity start d' seen'

module _ (platform : PlatformBackend) (integrity : StreamingIntegrityVerifier)
    (contract : BackendContract platform) (start : integrity.Digest) where
  open contract use {content, published, create_empty, write_appends, flush_keeps, commit_publishes}

  abbrev S : Type 0
  S = Sys platform integrity

  -- What the bytes seen so far have to do with the verifier and with the file system.
  abbrev pub StateTrace : TransactionState → S → Type 0
  StateTrace TransactionState.created s =
      (d : integrity.Digest) → s.tx.verifier ≡ some d → d ≡ start
  StateTrace TransactionState.receiving s =
      (seen : List ℕ) × (d : integrity.Digest) × (s.tx.verifier ≡ some d)
      × Fed integrity start d seen
      × (content s.world s.tx.temporary ≡ seen)
      × (length seen ≡ s.tx.received_bytes)
  StateTrace TransactionState.committed s =
      (seen : List ℕ) × (d : integrity.Digest) × Fed integrity start d seen
      × ((integrity.seal d).1 ≡ true)
      × (published s.world s.tx.request.path ≡ some seen)
      × (length seen ≡ s.tx.request.declared_size)
  StateTrace _ s = Unit {0}

  abbrev pub IsTraced : S → Type 0
  IsTraced s = StateTrace s.tx.state s

  pub fail-IsTraced :
      (e : TransactionError) (p : PlatformError) (s : S)
      → IsTraced (fail_and_cleanup platform integrity e p s).0
  unfolding fail_and_cleanup finish_cleanup release_reservation
  fail-IsTraced e p s = ground arith

  write_verified-IsTraced :
      (bytes seen : List ℕ) (d : integrity.Digest) (s : S)
      → s.tx.verifier ≡ some d
      → s.tx.state ≡ TransactionState.receiving
      → Fed integrity start d seen
      → content s.world s.tx.temporary ≡ seen ++ bytes
      → length seen ≡ s.tx.received_bytes
      → s.tx.received_bytes + length bytes < u64_mod
      → IsTraced (write_verified platform integrity bytes s).0
  unfolding write_verified
  write_verified-IsTraced bytes seen d s v r f c l fits =
      elim (Bool-cases (integrity.update d bytes).1) [
        | inl agreed ↦
            rw (v, write_verified, agreed, r)
              (
                seen ++ bytes,
                (integrity.update d bytes).0,
                refl,
                fed bytes f refl agreed refl,
                c,
                omega (arith, length-append seen bytes),
              )
        | inr refused ↦ rw (v, write_verified, refused) (fail-IsTraced _ _ _)
      ]

  receiving-facts :
      (s : S)
      → s.tx.state ≡ TransactionState.receiving
      → IsValid s.tx
      → IsReceiving s.tx × (s.tx.request.declared_size < u64_mod)
  receiving-facts s r valid = ground arith

  pub write-receiving :
      (bytes : List ℕ) (s : S)
      → s.tx.state ≡ TransactionState.receiving
      → IsValid s.tx
      → StateTrace TransactionState.receiving s
      → IsTraced (write platform integrity bytes s).0
  unfolding write write_data
  write-receiving bytes s r valid (seen, d, v, f, c, l) =
      elim (Bool-cases
        (ltb (sub64 s.tx.request.declared_size s.tx.received_bytes) (length bytes))) [
          | inl big ↦ rw (r, write, big) (fail-IsTraced _ _ _)
          | inr small ↦ elim (Bool-cases (length bytes == 0)) [
            | inl empty ↦ rw (r, write, small, empty, r) (seen, d, v, f, c, l)
            | inr more ↦
                elim (Bool-cases
                  (not (platform_ok written.error) || written.bytes_written != length bytes)) [
                    | inl bad ↦ rw (r, write, small, more, write_data, bad) (fail-IsTraced _ _ _)
                    | inr good ↦
                        rw (r, write, small, more, write_data, good)
                          (write_verified-IsTraced bytes seen d _ v r f
                            (write_appends s.world s.tx.temporary bytes (ground arith)
                              ∙ ap (λ x. x ++ bytes) c)
                            l (ground (arith, receiving-facts s r valid)))
                  ]
          ]
        ]
    where
      written : PlatformWriteResult
      written = (platform.write_temporary s.world s.tx.temporary bytes).1

  commit_finished-IsTraced :
      (p : PlatformCommitDisposition) (e : PlatformError) (seen : List ℕ) (d : integrity.Digest)
      (s : S)
      → Fed integrity start d seen
      → (integrity.seal d).1 ≡ true
      → (p ≡ PlatformCommitDisposition.committed → published s.world s.tx.request.path ≡ some seen)
      → length seen ≡ s.tx.request.declared_size
      → IsTraced (commit_finished platform integrity p e s).0
  unfolding commit_finished release_reservation
  commit_finished-IsTraced PlatformCommitDisposition.committed e seen d s f g c l =
      (seen, d, f, g, ground (arith, c refl), ground arith)
  commit_finished-IsTraced PlatformCommitDisposition.not_committed e seen d s f g c l =
      fail-IsTraced _ _ _
  commit_finished-IsTraced PlatformCommitDisposition.outcome_uncertain e seen d s f g c l = tt

  begin_created-IsTraced :
      (c : PlatformError) (h : ℕ) (d : integrity.Digest) (s : S)
      → s.tx.verifier ≡ some d
      → d ≡ start
      → s.tx.received_bytes ≡ 0
      → content s.world h ≡ []
      → IsTraced (begin_created platform integrity c h s).0
  unfolding begin_created release_reservation
  begin_created-IsTraced c h d s v st z e = elim (Bool-cases (not (platform_ok c) || h == 0)) [
    | inr good ↦ rw (begin_created, good) ([], d, v, rw st begun, e, omega arith)
    | inl bad ↦ elim (Bool-cases (h != 0)) [
      | inl opened ↦ rw (begin_created, bad, opened) (fail-IsTraced _ _ _)
      | inr nothing ↦ rw (begin_created, bad, nothing) tt
    ]
  ]

  pub begin-created :
      (s : S)
      → s.tx.state ≡ TransactionState.created
      → IsValid s.tx
      → StateTrace TransactionState.created s
      → IsTraced (begin platform integrity s).0
  unfolding begin begin_budgeted begin_reserved
  begin-created s r valid first = elim (Option-cases s.tx.verifier) [
    | inl none_set ↦ rw (r, begin, none_set) tt
    | inr (d, set) ↦ elim (Bool-cases s.tx.has_budget) [
      | inr no_budget ↦ rw (r, begin, set, no_budget) tt
      | inl budget ↦ elim (Bool-cases (try_reserve s.budget s.tx.request.declared_size).1) [
        | inr full ↦ rw (r, begin, set, budget, begin_budgeted, full) tt
        | inl granted ↦
            rw (r, begin, set, budget, begin_budgeted, granted)
              (begin_created-IsTraced _ _ d _ set (first d set) (ground arith)
                (create_empty s.world s.tx.request.path s.tx.request.declared_size))
      ]
    ]
  ]

  pub seal_and_commit-receiving :
      (s : S)
      → s.tx.state ≡ TransactionState.receiving
      → StateTrace TransactionState.receiving s
      → IsTraced (seal_and_commit platform integrity s).0
  unfolding seal_and_commit seal_verifier commit_sealed
  seal_and_commit-receiving s r (seen, d, v, f, c, l) =
      elim (Bool-cases (s.tx.received_bytes == s.tx.request.declared_size)) [
        | inr short ↦ rw (r, seal_and_commit, short) (fail-IsTraced _ _ _)
        | inl whole ↦ elim (Bool-cases (integrity.seal d).1) [
          | inr refused ↦
              rw (r, seal_and_commit, whole, seal_verifier, v, refused) (fail-IsTraced _ _ _)
          | inl sealed ↦
              elim (Bool-cases (platform_ok (platform.flush_temporary s.world s.tx.temporary).1)) [
                | inr bad ↦
                    rw (r, seal_and_commit, whole, seal_verifier, v, sealed, commit_sealed, bad)
                      (fail-IsTraced _ _ _)
                | inl good ↦
                    rw (r, seal_and_commit, whole, seal_verifier, v, sealed, commit_sealed, good)
                      (commit_finished-IsTraced _ _ seen d _ f sealed
                        (λ done.
                          commit_publishes _ s.tx.temporary s.tx.request.path done
                          ∙ ap some (flush_keeps s.world s.tx.temporary ∙ c))
                        (ground arith))
              ]
        ]
      ]
